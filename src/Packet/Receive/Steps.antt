-- ===== src/Packet/Receive/Steps.antt =====
-- Rounds of `rtmp_packet_get_packet`: how a header is reached, and what happens where it is not complete.
use rushkit.Base.{
  ℕ, zero, suc, ◌+◌, ◌-◌, ◌/◌, ◌%◌, ◌^◌, ◌≤◌, ◌<◌, ◌≡◌, refl, ap, ◌∙◌, Bool, true, [], ◌∷◌, none,
  arith, Bytes, length, ◌==◌, if◌then◌else◌,
}
use rushkit.Base.Outcome.{ok, out_of_fuel}
use rushkit.Buffer.ReadBuffer.{ReadBuffer, rtmp_rb_get_space, rtmp_rb_assert_size}
use rushkit.Buffer.ReadBuffer.Laws.{
  IsValid, remaining, advance, rtmp_rb_read_byte_e-ok, IsValid-advance, remaining-advance,
  length-remaining,
}
use rushkit.Session.{Channel, Proto, int_lt, rtmp_proto_get_channel, rtmp_packet_reset}
use rushkit.Packet.Header.{start_receive, get_r1, get_r2, get_r3, get_r4, read_header, with_bytes}
use rushkit.Packet.Receive.{step, get_packet_loop}

-- A number of rounds that yield no packet, up to a connection and a read buffer.
pub data Rounds (small : Bool) (p' : Proto) (b' : ReadBuffer)
    : ℕ → Proto → ReadBuffer → Type 0 where
  here : Rounds small p' b' 0 p' b'
  round :
      {n : ℕ} {p q : Proto} {b c : ReadBuffer}
      → step small p b ≡ ok (none, q, c)
      → Rounds small p' b' n q c
      → Rounds small p' b' (suc n) p b

pub loop_zero :
    (small : Bool) (p : Proto) (b : ReadBuffer) → get_packet_loop 0 small p b ≡ out_of_fuel
unfolding get_packet_loop
loop_zero small p b = refl

pub loop_round :
    (small : Bool) (p q : Proto) (b c : ReadBuffer) (fuel : ℕ)
    → step small p b ≡ ok (none, q, c)
    → get_packet_loop (suc fuel) small p b ≡ get_packet_loop fuel small q c
unfolding get_packet_loop
loop_round small p q b c fuel e = rw e refl

-- The loop after these rounds.
pub get_packet_loop-Rounds :
    {small : Bool} {p' : Proto} {b' : ReadBuffer} {n : ℕ} {p : Proto} {b : ReadBuffer}
    → Rounds small p' b' n p b
    → (fuel m : ℕ) → m ≡ n + fuel
    → get_packet_loop m small p b ≡ get_packet_loop fuel small p' b'
get_packet_loop-Rounds {small = small} {p' = p'} {b' = b'} here fuel m e =
    ap (λ k. get_packet_loop k small p' b') (omega arith)
get_packet_loop-Rounds (round s r) fuel zero e = absurd (omega arith)
get_packet_loop-Rounds (round s r) fuel (suc m) e =
    loop_round _ _ _ _ _ m s ∙ get_packet_loop-Rounds r fuel m (omega arith)

-- However many rounds are allowed, no packet comes.
abbrev pub RunsOn : Bool → Proto → ReadBuffer → Type 0
RunsOn small p b = (fuel : ℕ) → get_packet_loop fuel small p b ≡ out_of_fuel

pub RunsOn-Rounds :
    {small : Bool} {p' : Proto} {b' : ReadBuffer} {n : ℕ} {p : Proto} {b : ReadBuffer}
    → Rounds small p' b' n p b
    → RunsOn small p' b'
    → RunsOn small p b
RunsOn-Rounds here h fuel = h fuel
RunsOn-Rounds (round s r) h zero = loop_zero _ _ _
RunsOn-Rounds (round s r) h (suc fuel) = loop_round _ _ _ _ _ fuel s ∙ RunsOn-Rounds r h fuel

-- The connection in front of the rest of a header whose first byte is `x`.
abbrev pub at_header : Proto → ℕ → Proto
at_header proto x = record (rtmp_packet_reset proto) {
  state = 4;
  packet_mask = x / 2 ^ 6;
  channel_id = x % 2 ^ 6;
}

module _ (small : Bool) (proto : Proto) where
  pub first_step :
      (b : ReadBuffer) → proto.state ≡ 0 → step small proto b ≡ ok (none, start_receive proto, b)
  unfolding step
  first_step b h = rw h refl

  pub first_byte_step :
      (b : ReadBuffer) (x : ℕ) (rest : Bytes)
      → IsValid b
      → remaining b ≡ x ∷ rest
      → step small (start_receive proto) b
        ≡ ok (none, record (at_header proto x) { state = 2 }, advance b 1)
  unfolding step start_receive get_r1 rtmp_packet_reset
  first_byte_step b x rest v e = rw (rtmp_rb_read_byte_e-ok v x rest e) refl

  id_step :
      (b : ReadBuffer) (x : ℕ)
      → 2 ≤ x % 2 ^ 6
      → step small (record (at_header proto x) { state = 2 }) b
        ≡ ok (none, record (at_header proto x) { state = 3 }, b)
  unfolding step get_r2
  id_step b x h = ground arith

  in_range_step :
      (b : ReadBuffer) (x : ℕ)
      → step small (record (at_header proto x) { state = 3 }) b ≡ ok (none, at_header proto x, b)
  unfolding step get_r3
  in_range_step b x = let e : int_lt (x % 2 ^ 6) 64 ≡ true = ground arith in rw e refl

  -- A first byte that holds a channel's number from 2 on.
  pub to_header :
      (b : ReadBuffer) (x : ℕ) (rest : Bytes)
      → proto.state ≡ 0
      → IsValid b
      → remaining b ≡ x ∷ rest
      → 2 ≤ x % 2 ^ 6
      → Rounds small (at_header proto x) (advance b 1) 4 proto b
  to_header b x rest h v e l = round (first_step b h) (
      round (first_byte_step b x rest v e)
        (round (id_step (advance b 1) x l) (round (in_range_step (advance b 1) x) here)))

-- The bytes of a header behind the first one.
unfoldable pub header_size : ℕ → ℕ
header_size packet_mask =
    if packet_mask == 0
    then 11
    else if packet_mask == 1
    then 7
    else if packet_mask == 2
    then 3
    else 0

same_space :
    (b : ReadBuffer) (k : ℕ) → rtmp_rb_get_space (record b { need_more = k }) ≡ rtmp_rb_get_space b
unfolding rtmp_rb_get_space
same_space b k = refl

module _ (small : Bool) (p : Proto) (c : Channel) where
  header_step :
      (b : ReadBuffer)
      → p.state ≡ 4
      → rtmp_proto_get_channel p ≡ ok c
      → rtmp_rb_get_space b < header_size p.packet_mask
      → (k : ℕ) × (step small p b ≡ ok (none, p, record b { need_more = k }))
  unfolding step get_r4 read_header with_bytes header_size rtmp_rb_assert_size rtmp_rb_get_space
  header_step b h e l = (header_size p.packet_mask + b.current - b.len, ground arith)

  waits_for_header :
      (b : ReadBuffer)
      → p.state ≡ 4
      → rtmp_proto_get_channel p ≡ ok c
      → rtmp_rb_get_space b < header_size p.packet_mask
      → RunsOn small p b
  waits_for_header b h e l zero = loop_zero _ _ _
  waits_for_header b h e l (suc fuel) =
      let (k, s) = header_step b h e l in
      loop_round _ _ _ _ _ fuel s
      ∙ waits_for_header (record b { need_more = k }) h e (rw (same_space b k) l) fuel

-- A header that is not complete, although the channel is known: from its first byte on,
-- `rtmp_packet_get_packet` asks for more bytes round after round and never returns. The connection
-- is between packets, the input is valid, and the first byte has a channel's number from 2 on.
pub incomplete_header-RunsOn :
    (small : Bool) (proto : Proto) (b : ReadBuffer) (x : ℕ) (rest : Bytes) (c : Channel) (fuel : ℕ)
    → proto.state ≡ 0
    → IsValid b
    → remaining b ≡ x ∷ rest
    → 2 ≤ x % 2 ^ 6
    → rtmp_proto_get_channel (at_header proto x) ≡ ok c
    → length rest < header_size (x / 2 ^ 6)
    → get_packet_loop fuel small proto b ≡ out_of_fuel
incomplete_header-RunsOn small proto b x rest c fuel h v e l known short =
    let v' = IsValid-advance v (x ∷ []) rest e in
    let left = length-remaining v' ∙ refl in
    RunsOn-Rounds (to_header small proto b x rest h v e l)
      (waits_for_header small (at_header proto x) c (advance b 1) refl known
        (omega (arith, left, ap length (remaining-advance v (x ∷ []) rest e))))
      fuel
