-- ===== src/Packet/Receive/LongIds.antt =====
-- A packet whose channel's number takes a byte of its own.
use rushkit.Base.{
  ℕ, suc, ◌+◌, ◌%◌, ◌^◌, ◌<◌, ◌≡◌, refl, ap, ◌∙◌, Bool, false, [], ◌∷◌, none, arith, Bytes, length,
}
use rushkit.Base.Outcome.{ok, abort}
use rushkit.Buffer.ReadBuffer.{ReadBuffer}
use rushkit.Buffer.ReadBuffer.Laws.{
  IsValid, remaining, advance, reads, rtmp_rb_read_byte_e-ok, rtmp_rb_assert_size_lem,
  length-remaining,
}
use rushkit.Session.{Proto, int_lt}
use rushkit.Packet.Header.{with_bytes, one_byte_id, get_r2, get_r3}
use rushkit.Packet.Receive.{step, get_packet_loop, rtmp_packet_get_packet}
use rushkit.Packet.Receive.Steps.{
  here, round, get_packet_loop-Rounds, at_header, first_step, first_byte_step,
}

loop_abort :
    (small : Bool) (p : Proto) (b : ReadBuffer) (fuel : ℕ)
    → step small p b ≡ abort
    → get_packet_loop (suc fuel) small p b ≡ abort
unfolding get_packet_loop
loop_abort small p b fuel e = rw e refl

one_byte_id_lem :
    (p : Proto) (b : ReadBuffer) (y : ℕ) (rest : Bytes)
    → IsValid b
    → remaining b ≡ y ∷ rest
    → with_bytes p b 1 (one_byte_id p)
      ≡ ok (none, record p { state = p.state + 1; channel_id = 64 + y }, advance b 1)
unfolding with_bytes one_byte_id
one_byte_id_lem p b y rest v e =
    let there =
      (rtmp_rb_assert_size_lem b 1 v).0 (omega (arith, length-remaining v, ap length e)) in
    ground (arith, there, rtmp_rb_read_byte_e-ok v y rest e)

long_id_step :
    (small : Bool) (proto : Proto) (b : ReadBuffer) (x y : ℕ) (rest : Bytes)
    → IsValid b
    → remaining b ≡ y ∷ rest
    → x % 2 ^ 6 ≡ 0
    → step small (record (at_header proto x) { state = 2 }) b
      ≡ ok (none, record (at_header proto x) { state = 3; channel_id = 64 + y }, advance b 1)
unfolding step get_r2
long_id_step small proto b x y rest v e h =
    let p = record (at_header proto x) { state = 2 } in
    ground (arith, one_byte_id_lem p b y rest v e)

refused_step :
    (small : Bool) (proto : Proto) (b : ReadBuffer) (x y : ℕ)
    → y < 256
    → step small (record (at_header proto x) { state = 3; channel_id = 64 + y }) b ≡ abort
unfolding step get_r3
refused_step small proto b x y h = let e : int_lt (64 + y) 64 ≡ false = ground arith in rw e refl

-- A packet whose first byte has the channel's number 0, which says that the number follows in a byte
-- of its own, fails an assert whatever that byte is, in a connection that is between packets.
pub rtmp_packet_get_packet_long_id :
    (small : Bool) (proto : Proto) (b : ReadBuffer) (x y : ℕ) (rest : Bytes)
    → proto.state ≡ 0
    → IsValid b
    → remaining b ≡ x ∷ y ∷ rest
    → x % 2 ^ 6 ≡ 0
    → y < 256
    → rtmp_packet_get_packet small proto b ≡ abort
unfolding rtmp_packet_get_packet
rtmp_packet_get_packet_long_id small proto b x y rest h v e zero_id byte =
    let (_, v₁, e₁) = reads v (x ∷ []) (y ∷ rest) e 1 refl in
    get_packet_loop-Rounds
      (round (first_step small proto b h) (
        round (first_byte_step small proto b x (y ∷ rest) v e)
          (round (long_id_step small proto (advance b 1) x y rest v₁ e₁ zero_id) here)))
      4 7 refl
    ∙ loop_abort small _ _ 3 (refused_step small proto _ x y byte)
