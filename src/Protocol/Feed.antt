-- ===== src/Protocol/Feed.antt =====
-- core/src/protocol.c: `rtmp_proto_feed` and `rtmp_proto_feed_data`. The read buffer is
-- taken not to change while it is read.
use rushkit.Base.{
  ℕ, zero, suc, ◌+◌, ◌-◌, ◌%◌, ◌^◌, Bool, true, false, ◌++◌, none, some, Bytes, length, take, drop,
  ltb, leb, ◌==◌, ◌&&◌, if◌then◌else◌,
}
use rushkit.Base.Outcome.{Outcome, ok, fault, out_of_fuel, assert, ◌>>=◌, ◌>>◌}
use rushkit.Pool.{rt_pool_reset}
use rushkit.Buffer.ReadBuffer.{ReadBuffer, rtmp_rb_init, rtmp_rb_get_space}
use rushkit.Session.{Packet, Proto, no_packet_callback, rtmp_proto_log, rtmp_packet_reset}
use rushkit.Packet.Receive.{rtmp_packet_get_packet}
use rushkit.Protocol.{MethodTable, built_in, given, on_connect, on_hand_shake, on_ack_back}
use rushkit.Protocol.Handlers.{default_on_packet}

abbrev pub buffer_sz : ℕ
buffer_sz = 8192

module _ (small : Bool) (table : MethodTable) (now : ℕ) (to_double from_double : ℕ → ℕ)
    (alloc : ℕ → Bytes) where
  unfoldable pub hand_out : Proto → Packet → Outcome Proto
  hand_out proto pac = elim (table.on_packet) [
    | none ↦ ok (rtmp_proto_log proto no_packet_callback)
    | some built_in ↦ default_on_packet small table now to_double from_double alloc proto pac
    | some (given f) ↦ f proto pac
  ]

  -- A packet is handed out, and the memory that it has taken is given back.
  unfoldable pub feed_packet : Proto → ReadBuffer → Outcome (Proto × ReadBuffer)
  unfolding hand_out
  feed_packet proto b = do
    (pac, p₁, b') ← rtmp_packet_get_packet small proto b
    p₂ ← hand_out p₁ pac
    let p₃ = rtmp_packet_reset p₂
    ok (record p₃ { pool = rt_pool_reset p₃.pool }, b')

  -- The switch on `proto->pkg_st`.
  unfoldable pub feed_round : Proto → ReadBuffer → Outcome (Proto × ReadBuffer)
  unfolding feed_packet
  feed_round proto b =
      if proto.pkg_st == 0
      then on_connect proto b
      else if proto.pkg_st == 1
      then on_hand_shake small table proto b
      else if proto.pkg_st == 2
      then ok (on_ack_back proto b)
      else if proto.pkg_st == 3
      then feed_packet proto b
      else ok (proto, b)

  -- `for(; space > 0 && need_more == 0;)` on fuel.
  unfoldable pub feed_loop : ℕ → Proto → ReadBuffer → Outcome (Proto × ReadBuffer)
  unfolding feed_round
  feed_loop zero proto b =
      if ltb 0 (rtmp_rb_get_space b) && b.need_more == 0 then out_of_fuel else ok (proto, b)
  feed_loop (suc fuel) proto b = elim (ltb 0 (rtmp_rb_get_space b) && b.need_more == 0) [
    | false ↦ ok (proto, b)
    | true ↦ do (p, b') ← feed_round proto b; feed_loop fuel p b'
  ]

  -- What is missing is kept for the next call. The memory of `last_data` has to take it: a packet with a
  -- chunk size can have made it smaller than 128 bytes.
  unfoldable pub keep_rest : Proto → ReadBuffer → Outcome Proto
  keep_rest proto b = do
    let space = rtmp_rb_get_space b
    assert (leb space 128)
    if leb space (length proto.last_data)
        then ok (record proto {
          last_data_length = space;
          last_data = take space (drop b.current b.buf) ++ drop space proto.last_data;
        })
        else fault

  -- Each round takes a byte at least, in the states that there are.
  unfoldable pub rtmp_proto_feed : Proto → ℕ → Outcome Proto
  unfolding feed_loop keep_rest
  rtmp_proto_feed proto len = do
    let p = record proto { num_up_bytes = (proto.num_up_bytes + len) % 2 ^ 32 }
    (p', b) ← feed_loop len p (rtmp_rb_init p.read_buffer len)
    if ltb 0 b.need_more then keep_rest p' b else ok p'

-- The first bytes of some memory, written over.
abbrev pub overwrite : Bytes → Bytes → Bytes
overwrite memory src = src ++ drop (length src) memory

unfoldable pub put_last_data : Proto → ℕ × Proto
put_last_data proto =
    let kept = proto.last_data_length in
    let p =
      if ltb 0 kept
      then record proto { read_buffer = overwrite proto.read_buffer (take kept proto.last_data) }
      else proto in
    (kept, record p { last_data_length = 0 })

-- The place in the read buffer, as an offset, and the room behind it.
unfoldable pub rtmp_proto_prepare_buffer : Proto → ℕ × ℕ × Proto
unfolding put_last_data
rtmp_proto_prepare_buffer proto = let (pl, p) = put_last_data proto in (pl, buffer_sz - pl, p)

module _ (small : Bool) (table : MethodTable) (now : ℕ) (to_double from_double : ℕ → ℕ)
    (alloc : ℕ → Bytes) where
  -- One round of `rtmp_proto_feed_data`: what is fed stands at the start of the read buffer, and `src`
  -- does not move on. The number of bytes that are counted as fed comes with it.
  unfoldable pub feed_data_round : Proto → Bytes → ℕ → ℕ × Proto
  unfolding rtmp_proto_prepare_buffer
  feed_data_round proto src len =
      let (_, room, p) = rtmp_proto_prepare_buffer proto in
      let cap = if ltb len room then len else room in
      (cap, record p { read_buffer = overwrite p.read_buffer (take cap src) })

  -- `while(len > 0)` on fuel.
  unfoldable pub feed_data_loop : ℕ → Proto → Bytes → ℕ → Outcome Proto
  unfolding feed_data_round
  feed_data_loop zero proto src len = if ltb 0 len then out_of_fuel else ok proto
  feed_data_loop (suc fuel) proto src len = elim (ltb 0 len) [
    | false ↦ ok proto
    | true ↦
        let (cap, p) = feed_data_round proto src len in
        rtmp_proto_feed small table now to_double from_double alloc p cap
        >>= (λ p'. feed_data_loop fuel p' src (len - cap))
  ]

  -- Each round takes a byte at least, as long as less than 8192 bytes are kept.
  unfoldable pub rtmp_proto_feed_data : Proto → Bytes → Outcome Proto
  unfolding feed_data_loop
  rtmp_proto_feed_data proto src = feed_data_loop (length src) proto src (length src)
