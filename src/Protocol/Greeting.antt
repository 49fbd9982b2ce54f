-- ===== src/Protocol/Greeting.antt =====
-- A whole handshake, fed at once.
use rushkit.Base.{
  ℕ, zero, suc, ◌+◌, ◌%◌, ◌^◌, ◌<◌, ◌≡◌, refl, sym, ap, ◌∙◌, Bool, false, [], ◌∷◌, ◌++◌,
  append_assoc, append-nil, arith, Bytes, length, lengths, take, take-append_length, ltb,
}
use rushkit.Base.Outcome.{ok}
use rushkit.Buffer.ReadBuffer.{ReadBuffer, rtmp_rb_init, rtmp_rb_read, rtmp_rb_get_space}
use rushkit.Buffer.ReadBuffer.Laws.{remaining, rtmp_rb_init_lem, length-remaining}
use rushkit.Buffer.FixBuffer.{rtmp_fwb_init}
use rushkit.Session.{Proto, wrote}
use rushkit.Protocol.{MethodTable, ack, shake_buffer, on_connect, on_hand_shake, on_ack_back}
use rushkit.Protocol.Feed.{feed_round, feed_loop, rtmp_proto_feed}
use rushkit.Protocol.Handshake.{Rest, recording, LeftOver, read_prefix, answered, on_hand_shake_lem}

take_head : (k x : ℕ) (p : Bytes) → take k p ≡ x ∷ [] → (tail : Bytes) × (p ≡ x ∷ tail)
take_head zero x p e = cc
take_head (suc k) x [] e = cc
take_head (suc k) x (y ∷ p) e = (p, cc)

pub on_connect_lem :
    (proto : Proto) (b : ReadBuffer) (rest : Bytes)
    → Rest b (3 ∷ rest)
    → (b' : ReadBuffer) × (on_connect proto b ≡ ok (record proto { pkg_st = 1 }, b'))
      × LeftOver b b' rest
unfolding on_connect
on_connect_lem proto b rest l =
    let (e, _, l') = read_prefix b 1 (3 ∷ []) rest l refl in
    let (tail, h) = take_head _ 3 _ e in ((rtmp_rb_read b 1).2, ground (arith, h), l')

pub on_ack_back_lem :
    (proto : Proto) (b : ReadBuffer) (xs rest : Bytes)
    → length xs ≡ proto.ack_back_len
    → Rest b (xs ++ rest)
    → (b' : ReadBuffer) × (on_ack_back proto b
        ≡ (record proto { ack_back_len = 1536; pkg_st = proto.pkg_st + 1 }, b'))
      × LeftOver b b' rest
unfolding on_ack_back
on_ack_back_lem proto b xs rest h l =
    let (_, count, l') = read_prefix b proto.ack_back_len xs rest l h in
    ((rtmp_rb_read b proto.ack_back_len).2, ground arith, l')

module _ (small : Bool) (table : MethodTable) (now : ℕ) (to_double from_double : ℕ → ℕ)
    (alloc : ℕ → Bytes) where
  pub loop_step :
      (fuel : ℕ) (p p' : Proto) (b b' : ReadBuffer)
      → 0 < rtmp_rb_get_space b
      → b.need_more ≡ 0
      → feed_round small table now to_double from_double alloc p b ≡ ok (p', b')
      → feed_loop small table now to_double from_double alloc (suc fuel) p b
        ≡ feed_loop small table now to_double from_double alloc fuel p' b'
  unfolding feed_loop
  loop_step fuel p p' b b' some_left ready e = ground arith

  pub loop_end :
      (fuel : ℕ) (p : Proto) (b : ReadBuffer)
      → rtmp_rb_get_space b ≡ 0
      → feed_loop small table now to_double from_double alloc fuel p b ≡ ok (p, b)
  unfolding feed_loop
  loop_end zero p b h = ground arith
  loop_end (suc fuel) p b h = ground arith

  pub connect_round :
      (p : Proto) (b : ReadBuffer)
      → p.pkg_st ≡ 0
      → feed_round small table now to_double from_double alloc p b ≡ on_connect p b
  unfolding feed_round
  connect_round p b h = rw h refl

  pub shake_round :
      (p : Proto) (b : ReadBuffer)
      → p.pkg_st ≡ 1
      → feed_round small table now to_double from_double alloc p b ≡ on_hand_shake small table p b
  unfolding feed_round
  shake_round p b h = rw h refl

  pub ack_round :
      (p : Proto) (b : ReadBuffer)
      → p.pkg_st ≡ 2
      → feed_round small table now to_double from_double alloc p b ≡ ok (on_ack_back p b)
  unfolding feed_round
  ack_round p b h = rw h refl

-- A connection at its start, with this in its read buffer.
abbrev pub at_start : Proto → Bytes → Proto
at_start proto memory = record proto {
  pkg_st = 0;
  tmp_buf = rtmp_fwb_init;
  ack_back_len = 1536;
  read_buffer = memory;
}

module _ (small : Bool) (table : MethodTable) (now : ℕ) (to_double from_double : ℕ → ℕ)
    (alloc : ℕ → Bytes) where
  -- A connection at its start that is fed a whole handshake, the byte 3 and two blocks of 1536 bytes, in
  -- one go, writes its own block and then the client's first one, is ready for packets, and has counted
  -- the bytes both ways. The host is one that notes what it is to write.
  pub rtmp_proto_feed-handshake :
      (proto : Proto) (block block' memory : Bytes)
      → length block ≡ 1536
      → length block' ≡ 1536
      → let p = at_start proto (3 ∷ (block ++ (block' ++ memory))) in
        rtmp_proto_feed small (recording table) now to_double from_double alloc p 3073
        ≡ ok (record p {
          pkg_st = 3;
          num_up_bytes = (proto.num_up_bytes + 3073) % 2 ^ 32;
          num_down_bytes = (proto.num_down_bytes + 3073) % 2 ^ 32;
          events = (proto.events ++ (wrote (ack small) ∷ [])) ++ (wrote block ∷ []);
        })
  unfolding rtmp_proto_feed shake_buffer rtmp_fwb_init
  rtmp_proto_feed-handshake proto block block' memory h h' =
      let start = at_start proto (3 ∷ (block ++ (block' ++ memory))) in
      let p = record start { num_up_bytes = (proto.num_up_bytes + 3073) % 2 ^ 32 } in
      let b = rtmp_rb_init p.read_buffer 3073 in
      let whole : 3 ∷ (block ++ (block' ++ memory)) ≡ (3 ∷ (block ++ block')) ++ memory =
        ap (λ t. 3 ∷ t) (sym (append_assoc block block' memory)) in
      let size : length (3 ∷ (block ++ block')) ≡ 3073 = omega lengths in
      let (v, r) = rtmp_rb_init_lem p.read_buffer 3073 (omega lengths) in
      let r' : remaining b ≡ 3 ∷ (block ++ block') =
        r
        ∙ (ap (take 3073) whole
            ∙ (ap (λ k. take k ((3 ∷ (block ++ block')) ++ memory)) (sym size)
                ∙ take-append_length (3 ∷ (block ++ block')) memory)) in
      let (b₁, e₁, ((v₁, r₁), n₁)) = on_connect_lem p b (block ++ block') (v, r') in
      let p₁ = record p { pkg_st = 1 } in
      let (b₂, e₂, ((v₂, r₂), n₂)) =
        (on_hand_shake_lem small table p₁ b₁ (refl, omega arith, refl) v₁).1 block block' r₁
          (omega (arith, h)) in
      let p₂ = answered small p₁ block in
      let (b₃, e₃, ((v₃, r₃), n₃)) =
        on_ack_back_lem p₂ b₂ block' [] h' (v₂, r₂ ∙ sym (append-nil block')) in
      let p₃ = record p₂ { ack_back_len = 1536; pkg_st = 3 } in
      let ready : b.need_more ≡ 0 = unfold rtmp_rb_init in refl in
      let rounds_run : feed_loop small (recording table) now to_double from_double alloc 3073 p b
          ≡ ok (p₃, b₃) =
        loop_step small (recording table) now to_double from_double alloc 3072 p p₁ b b₁
          (omega (arith, length-remaining v, ap length r')) ready
          (connect_round small (recording table) now to_double from_double alloc p b refl ∙ e₁)
        ∙ (loop_step small (recording table) now to_double from_double alloc 3071 p₁ p₂ b₁ b₂
              (omega (lengths, length-remaining v₁, ap length r₁)) (n₁ ∙ ready)
              (shake_round small (recording table) now to_double from_double alloc p₁ b₁ refl ∙ e₂)
            ∙ (loop_step small (recording table) now to_double from_double alloc 3070 p₂ p₃ b₂ b₃
                  (omega (arith, length-remaining v₂, ap length r₂)) (n₂ ∙ (n₁ ∙ ready))
                  (ack_round small (recording table) now to_double from_double alloc p₂ b₂ refl
                    ∙ ap ok e₃)
                ∙ loop_end small (recording table) now to_double from_double alloc 3070 p₃ b₃
                    (omega (arith, length-remaining v₃, ap length r₃)))) in
      let none_missing : ltb 0 b₃.need_more ≡ false = ground arith in
      rw rounds_run (rw none_missing refl)
