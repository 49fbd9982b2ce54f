-- ===== src/Packet/Receive/Fields.antt =====
-- The header of a new packet, read by `_get_r4` and `_get_r5`.
use rushkit.Base.{
  if-true, if-false, ℕ, zero, suc, ◌+◌, ◌*◌, ◌/◌, ◌%◌, ◌^◌, ◌≤◌, ◌<◌, ◌≡◌, ◌≢◌, refl, ap, ◌∙◌, Bool,
  true, false, List, [], ◌∷◌, ◌++◌, none, arith, Bytes, length, length-append, lengths, leb, ◌==◌,
}
use rushkit.Base.Outcome.{ok}
use rushkit.Word.{little_endian, from_little_endian, from_memory, load_data}
use rushkit.Word.Wire.{big_endian, load_data_small, load_data_big, reverse-little_endian}
use rushkit.Buffer.ReadBuffer.{ReadBuffer, rtmp_rb_get_space, rtmp_rb_assert_size}
use rushkit.Buffer.ReadBuffer.Laws.{
  IsValid, remaining, advance, reads, rtmp_rb_read_byte_e-ok, rtmp_rb_read_medium_int_e-ok,
  rtmp_rb_read_int_e-ok, rtmp_rb_assert_size_lem, length-remaining,
}
use rushkit.Session.{Channel, Proto, at, set, put_channel, rtmp_proto_get_channel}
use rushkit.Packet.Wire.{medium}
use rushkit.Packet.Header.{
  Step, read_timer, read_source, read_all, check_size, read_header, with_bytes, get_r4,
}
use rushkit.Packet.Receive.{reset_data_buffer, get_r5}

-- A valid buffer with these bytes still to be read, which has not asked for more.
abbrev pub Left : ReadBuffer → Bytes → Type 0
Left b rest = IsValid b × (remaining b ≡ rest) × (b.need_more ≡ 0)

-- The four bytes of a number in the opposite order.
abbrev pub swap_bytes : ℕ → ℕ
swap_bytes s = from_little_endian (big_endian 4 s)

read_swapped :
    (small : Bool) (s : ℕ) → from_memory small (load_data small (little_endian 4 s)) ≡ swap_bytes s
unfolding from_memory
read_swapped true s = rw (load_data_small (little_endian 4 s), reverse-little_endian 4 s) refl
read_swapped false s = rw (load_data_big (little_endian 4 s), reverse-little_endian 4 s) refl

pub read_timer_lem :
    (c : Channel) (b : ReadBuffer) (t : ℕ) (rest : Bytes)
    → Left b (medium t ++ rest)
    → t < 2 ^ 24
    → (b' : ReadBuffer) × (read_timer c b ≡ ok (record c { timer = t }, b')) × Left b' rest
unfolding read_timer
read_timer_lem c b t rest (v, e, n) h =
    let value : t / 2 ^ 16 % 256 * 2 ^ 16 + t / 2 ^ 8 % 256 * 2 ^ 8 + t % 256 ≡ t = omega arith in
    let (_, v', r) = reads v (medium t) rest e 3 refl in
    (advance b 3, rw (rtmp_rb_read_medium_int_e-ok v _ _ _ rest e) (rw value refl), (v', r, n))

pub read_source_lem :
    (c : Channel) (b : ReadBuffer) (t sz ty : ℕ) (rest : Bytes)
    → Left b (medium t ++ (medium sz ++ (ty ∷ rest)))
    → t < 2 ^ 24
    → sz < 2 ^ 24
    → (b' : ReadBuffer) × (read_source c b
        ≡ ok (record c { timer = t; size = sz; data_type = ty }, b'))
      × Left b' rest
unfolding read_source
read_source_lem c b t sz ty rest l ht hs =
    let (b₁, e₁, l₁) = read_timer_lem c b t (medium sz ++ (ty ∷ rest)) l ht in
    let value : sz / 2 ^ 16 % 256 * 2 ^ 16 + sz / 2 ^ 8 % 256 * 2 ^ 8 + sz % 256 ≡ sz =
      omega arith in
    let (_, v₂, r₂) = reads l₁.0 (medium sz) (ty ∷ rest) l₁.1 3 refl in
    let (_, v₃, r₃) = reads v₂ (ty ∷ []) rest r₂ 1 refl in
    (
      advance (advance b₁ 3) 1,
      rw
          (
            e₁,
            rtmp_rb_read_medium_int_e-ok l₁.0 _ _ _ (ty ∷ rest) l₁.1,
            rtmp_rb_read_byte_e-ok v₂ ty rest r₂,
          )
          (rw value refl),
      (v₃, r₃, l₁.2),
    )

read_all_lem :
    (small : Bool) (c : Channel) (b : ReadBuffer) (t sz ty s : ℕ) (rest : Bytes)
    → Left b (medium t ++ (medium sz ++ (ty ∷ (little_endian 4 s ++ rest))))
    → t < 2 ^ 24
    → sz < 2 ^ 24
    → (b' : ReadBuffer) × (read_all small c b
        ≡ ok (record c { timer = t; size = sz; data_type = ty; stream_id = swap_bytes s }, b'))
      × Left b' rest
unfolding read_all
read_all_lem small c b t sz ty s rest l ht hs =
    let (b₁, e₁, l₁) = read_source_lem c b t sz ty (little_endian 4 s ++ rest) l ht hs in
    let four : length (little_endian 4 s) ≡ 4 = unfold little_endian in refl in
    let (_, v₂, r₂) = reads l₁.0 (little_endian 4 s) rest l₁.1 4 four in
    (
      advance b₁ 4,
      rw
          (
            e₁,
            rtmp_rb_read_int_e-ok l₁.0 small (little_endian 4 s) rest l₁.1 four,
            read_swapped small s,
          )
          refl,
      (v₂, r₂, l₁.2),
    )

pub at-set :
    (cs : List Channel) (i : ℕ) (c c' : Channel) → at cs i ≡ ok c → at (set cs i c') i ≡ ok c'
at-set [] i c c' e = cc
at-set (x ∷ cs) zero c c' e = refl
at-set (x ∷ cs) (suc i) c c' e = at-set cs i c c' e

-- The channel that has been written is the one that is found.
pub get_channel_put :
    (p q : Proto) (c c' : Channel)
    → rtmp_proto_get_channel p ≡ ok c
    → c'.used ≡ c.used
    → q.channel_id ≡ p.channel_id
    → q.channels_in ≡ set p.channels_in p.channel_id c'
    → rtmp_proto_get_channel q ≡ ok c'
unfolding rtmp_proto_get_channel
get_channel_put p q c c' e used hi hs = ground (arith, at-set p.channels_in p.channel_id c c')

pub with_bytes-true :
    (p : Proto) (b : ReadBuffer) (sz : ℕ) (k : ReadBuffer → Step)
    → (rtmp_rb_assert_size b sz).0 ≡ true
    → with_bytes p b sz k ≡ k b
unfolding with_bytes
with_bytes-true p b sz k e = ground arith

-- A header of a new packet, below 32 KiB.
pub get_r4_new :
    (small : Bool) (p : Proto) (c : Channel) (b : ReadBuffer) (t sz ty s : ℕ) (rest : Bytes)
    → p.packet_mask ≡ 0
    → rtmp_proto_get_channel p ≡ ok c
    → Left b (medium t ++ (medium sz ++ (ty ∷ (little_endian 4 s ++ rest))))
    → t < 2 ^ 24
    → sz < 32 * 1024
    → let c' = record c { timer = t; size = sz; data_type = ty; stream_id = swap_bytes s } in
      (b' : ReadBuffer) × (get_r4 small p b
        ≡ ok (none, record (put_channel p c') { state = p.state + 1 }, b'))
      × Left b' rest
unfolding get_r4 read_header check_size
get_r4_new small p c b t sz ty s rest hm known l ht hs =
    let (b', e, l') = read_all_lem small c b t sz ty s rest l ht (omega arith) in
    let four : length (little_endian 4 s) ≡ 4 = unfold little_endian in refl in
    let enough : 11 ≤ rtmp_rb_get_space b = omega (
      lengths,
      length-remaining l.0,
      ap length l.1,
      four,
      length-append {0} (little_endian 4 s) rest,
    ) in
    let there = (rtmp_rb_assert_size_lem b 11 l.0).0 enough in
    (
      b',
      rw known (
          if-true (p.packet_mask == 0) _ _ (ground arith)
          ∙ (with_bytes-true p b 11 _ (ap (λ r. r.0) there)
              ∙ rw e (if-false (leb (32 * 1024) sz) _ _ (ground arith)))),
      l',
    )

-- A time that is not 0xffffff: the data buffer gets the packet's size.
pub reset_step :
    (small : Bool) (p : Proto) (c : Channel) (b : ReadBuffer)
    → rtmp_proto_get_channel p ≡ ok c
    → c.timer ≢ 0xffffff
    → get_r5 small p b ≡ ok (none, record (reset_data_buffer p c.size) { state = p.state + 1 }, b)
unfolding get_r5
reset_step small p c b known ht =
    rw known (if-false (c.timer == 0xffffff) _ _ (ground arith))
    ∙ (unfold reset_data_buffer in refl)
