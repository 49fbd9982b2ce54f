-- ===== src/Protocol/Handshake.antt =====
-- The handshake: what the bytes of the client, in whatever pieces they come, make the connection do.
use rushkit.Base.{
  ℕ, ◌+◌, ◌%◌, ◌^◌, ◌≤◌, ◌<◌, ◌≡◌, refl, ap, ◌∙◌, Bool, true, false, [], ◌∷◌, ◌++◌, some, arith,
  Bytes, length, length-append, lengths, take, drop, take_of_length-le, drop_of_length-le,
  take-append_length, drop-append_length, ◌==◌, if◌then◌else◌,
}
use rushkit.Base.Outcome.{ok, ◌>>=◌}
use rushkit.Buffer.ReadBuffer.{ReadBuffer, rtmp_rb_read}
use rushkit.Buffer.ReadBuffer.Laws.{IsValid, remaining, length-remaining, rtmp_rb_read_lem}
use rushkit.Buffer.FixBuffer.{
  FixBuffer, rtmp_fwb_init, rtmp_fwb_free, rtmp_fwb_get_space, rtmp_fwb_get_value,
}
use rushkit.Buffer.FixBuffer.Laws.{rtmp_fwb_write_lem}
use rushkit.Word.{pack_long}
use rushkit.Session.{Proto, wrote}
use rushkit.Protocol.{MethodTable, proto_write_data, ack, answer, shake_buffer, on_hand_shake}

-- A host that notes what it is to write.
abbrev pub recording : MethodTable → MethodTable
recording table = record table {
  on_write_data =
      some
        (λ proto src. ok (length src, record proto { events = proto.events ++ (wrote src ∷ []) }));
}

-- The client's block is being collected.
abbrev pub IsCollecting : FixBuffer → Type 0
IsCollecting t = (t.capacity ≡ 1536) × (length t.stored < 1536) × (t.pooled ≡ false)

-- A valid buffer with these bytes still to be read.
abbrev pub Rest : ReadBuffer → Bytes → Type 0
Rest b rest = IsValid b × (remaining b ≡ rest)

-- What a read leaves; the number of missing bytes stays as it is.
abbrev pub LeftOver : ReadBuffer → ReadBuffer → Bytes → Type 0
LeftOver b b' rest = Rest b' rest × (b'.need_more ≡ b.need_more)

rtmp_rb_read_need_more : (b : ReadBuffer) (n : ℕ) → (rtmp_rb_read b n).2.need_more ≡ b.need_more
unfolding rtmp_rb_read
rtmp_rb_read_need_more b n = ground arith

-- A read of at most `n` bytes, where there are fewer, and where there are more.
pub read_whole :
    (b : ReadBuffer) (n : ℕ)
    → IsValid b
    → length (remaining b) ≤ n
    → let (p, k, b') = rtmp_rb_read b n in (take k p ≡ remaining b) × LeftOver b b' []
read_whole b n v h =
    let (_, t, v', r) = rtmp_rb_read_lem b n v in
    (
      t ∙ take_of_length-le n (remaining b) h,
      ((v', r ∙ drop_of_length-le n (remaining b) h), rtmp_rb_read_need_more b n),
    )

pub read_prefix :
    (b : ReadBuffer) (n : ℕ) (xs rest : Bytes)
    → Rest b (xs ++ rest)
    → length xs ≡ n
    → let (p, k, b') = rtmp_rb_read b n in (take k p ≡ xs) × (k ≡ n) × LeftOver b b' rest
read_prefix b n xs rest (v, e) h =
    let (count, t, v', r) = rtmp_rb_read_lem b n v in
    (
      t ∙ (ap (take n) e ∙ rw (← h) (take-append_length xs rest)),
      omega (lengths, count, length-remaining v, ap length e),
      (
        (v', r ∙ (ap (drop n) e ∙ rw (← h) (drop-append_length xs rest))),
        rtmp_rb_read_need_more b n,
      ),
    )

-- The bytes are stored.
stored_step :
    (small : Bool) (table : MethodTable) (proto : Proto) (b : ReadBuffer) (bs : Bytes)
    → let t = shake_buffer proto.tmp_buf in
      let (shake, len, b') = rtmp_rb_read b (rtmp_fwb_get_space t) in
      length t.stored + length bs ≤ t.capacity
      → take len shake ≡ bs
      → let fwb = record t { stored = t.stored ++ bs } in
        let p = record proto { tmp_buf = fwb } in
        on_hand_shake small table proto b ≡ (
          (if rtmp_fwb_get_space fwb == 0 then answer small table p else ok p)
          >>= (λ p'. ok (p', b')))
unfolding on_hand_shake
stored_step small table proto b bs fits e =
    let t = shake_buffer proto.tmp_buf in
    let (w, _, _) =
      (rtmp_fwb_write_lem t bs (omega arith)).0 (unfold rtmp_fwb_get_space in omega arith) in
    rw e (rw w refl)

length-ack : (small : Bool) → length (ack small) ≡ 1537
unfolding pack_long
length-ack true = refl
length-ack false = refl

answer_lem :
    (small : Bool) (table : MethodTable) (p : Proto)
    → length p.tmp_buf.stored ≡ 1536
    → p.tmp_buf.pooled ≡ false
    → answer small (recording table) p
      ≡ ok (record p {
        tmp_buf = rtmp_fwb_init;
        pkg_st = p.pkg_st + 1;
        num_down_bytes = (p.num_down_bytes + 3073) % 2 ^ 32;
        events = (p.events ++ (wrote (ack small) ∷ [])) ++ (wrote p.tmp_buf.stored ∷ []);
      })
unfolding answer proto_write_data rtmp_fwb_get_value
answer_lem small table p full own =
    let block = length-ack small in
    let released : rtmp_fwb_free p.tmp_buf ≡ ok rtmp_fwb_init =
      unfold rtmp_fwb_free in rw own refl in
    let sum : ((p.num_down_bytes + 1537) % 2 ^ 32 + 1536) % 2 ^ 32
        ≡ (p.num_down_bytes + 3073) % 2 ^ 32 =
      omega arith in
    rw (released, block, full) (rw sum refl)

-- The connection after the client's block has come, the last of it with `xs`.
abbrev pub answered : Bool → Proto → Bytes → Proto
answered small proto xs = record proto {
  tmp_buf = rtmp_fwb_init;
  pkg_st = proto.pkg_st + 1;
  num_down_bytes = (proto.num_down_bytes + 3073) % 2 ^ 32;
  events =
      (proto.events ++ (wrote (ack small) ∷ []))
      ++ (wrote ((shake_buffer proto.tmp_buf).stored ++ xs) ∷ []);
}

-- The connection with `xs` kept.
abbrev pub kept : Proto → Bytes → Proto
kept proto xs =
    let t = shake_buffer proto.tmp_buf in
    record proto { tmp_buf = record t { stored = t.stored ++ xs } }

module _ (small : Bool) (table : MethodTable) (proto : Proto) (b : ReadBuffer)
    (c : IsCollecting (shake_buffer proto.tmp_buf)) (v : IsValid b) where
  kept_lem :
      length (shake_buffer proto.tmp_buf).stored + length (remaining b) < 1536
      → (b' : ReadBuffer) × (on_hand_shake small (recording table) proto b
          ≡ ok (kept proto (remaining b), b'))
        × LeftOver b b' []
  kept_lem h =
      let t = shake_buffer proto.tmp_buf in
      let room : rtmp_fwb_get_space t + length t.stored ≡ 1536 =
        unfold rtmp_fwb_get_space in omega (arith, c) in
      let (e, l) = read_whole b (rtmp_fwb_get_space t) v (omega arith) in
      let more : (rtmp_fwb_get_space (kept proto (remaining b)).tmp_buf == 0) ≡ false =
        unfold rtmp_fwb_get_space in
        ground (arith, c, h, length-append {0} (shake_buffer proto.tmp_buf).stored (remaining b)) in
      (
        _,
        stored_step small (recording table) proto b (remaining b) (omega (arith, c)) e
            ∙ rw more refl,
        l,
      )

  answered_lem :
      (xs rest : Bytes)
      → remaining b ≡ xs ++ rest
      → length (shake_buffer proto.tmp_buf).stored + length xs ≡ 1536
      → (b' : ReadBuffer) × (on_hand_shake small (recording table) proto b
          ≡ ok (answered small proto xs, b'))
        × LeftOver b b' rest
  answered_lem xs rest e h =
      let t = shake_buffer proto.tmp_buf in
      let (r, _, l) =
        read_prefix b (rtmp_fwb_get_space t) xs rest (v, e)
          (unfold rtmp_fwb_get_space in omega (arith, c)) in
      let full : length (t.stored ++ xs) ≡ 1536 = omega lengths in
      let done : (rtmp_fwb_get_space (kept proto xs).tmp_buf == 0) ≡ true =
        unfold rtmp_fwb_get_space in ground (arith, c, full) in
      (
        _,
        stored_step small (recording table) proto b xs (omega (arith, c)) r
            ∙ rw done (rw (answer_lem small table (kept proto xs) full c.2) refl),
        l,
      )

-- While fewer than 1536 bytes of the client are there, they are kept, and nothing is written. With
-- the 1536th the connection writes its own block and then the client's bytes, in their order and
-- whatever pieces they came in, forgets them, and goes on to the next state with what follows. The
-- host is one that notes what it is to write, the buffer for the client's block is malloc's, takes
-- 1536 bytes and is not full, and the input is valid.
pub on_hand_shake_lem :
    (small : Bool) (table : MethodTable) (proto : Proto) (b : ReadBuffer)
    → IsCollecting (shake_buffer proto.tmp_buf)
    → IsValid b
    → (length (shake_buffer proto.tmp_buf).stored + length (remaining b) < 1536
        → (b' : ReadBuffer) × (on_hand_shake small (recording table) proto b
            ≡ ok (kept proto (remaining b), b'))
          × LeftOver b b' [])
      × ((xs rest : Bytes)
          → remaining b ≡ xs ++ rest
          → length (shake_buffer proto.tmp_buf).stored + length xs ≡ 1536
          → (b' : ReadBuffer) × (on_hand_shake small (recording table) proto b
              ≡ ok (answered small proto xs, b'))
            × LeftOver b b' rest)
on_hand_shake_lem small table proto b c v =
    (kept_lem small table proto b c v, answered_lem small table proto b c v)
