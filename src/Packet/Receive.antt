-- ===== src/Packet/Receive.antt =====
-- core/src/packet.c: the steps of `rtmp_packet_get_packet` that take the payload, and its loop.
pub mod Steps
pub mod Fields
pub mod Chunks
pub mod NewPacket
pub mod LongIds
pub mod Ends
pub mod Masks
pub mod Moves
pub mod Rounds
use rushkit.Base.{
  ℕ, zero, suc, ◌+◌, ◌-◌, ◌*◌, ◌/◌, ◌%◌, ◌^◌, Bool, true, false, not, List, [], ◌∷◌, ◌++◌, Option,
  none, some, Bytes, length, take, ltb, leb, ◌==◌, ◌&&◌, ◌||◌, if◌then◌else◌,
}
use mathlib.Core.Option.{get_or}
use rushkit.Base.Outcome.{Outcome, ok, abort, fault, out_of_fuel, split_at, assert, ◌>>=◌, ◌>>◌}
use rushkit.Word.{is_negative_short, is_negative_int}
use rushkit.Pool.{Pool, rt_pool_alloc}
use rushkit.Buffer.ReadBuffer.{
  ReadBuffer, rtmp_rb_get_space, rtmp_rb_read_e, read_bytes, rtmp_rb_read_short_e,
  rtmp_rb_read_int_e, rtmp_rb_read_byte_e, rtmp_rb_read_medium_int_e, rtmp_rb_assert_size,
}
use rushkit.Buffer.FixBuffer.{
  FixBuffer, rtmp_fwb_reset, rtmp_fwb_get_space, rtmp_fwb_write, rtmp_fwb_get_value,
}
use rushkit.Session.{
  Channel, Packet, Proto, unknown_addcode, rtmp_proto_log, int_lt, rtmp_proto_get_channel,
  put_channel, rtmp_packet_reset,
}
use rushkit.Packet.Header.{
  channel_new, channel_same_source, channel_timer_change, pac_invalid, Step, next_state, missing,
  start_receive, get_r1, add_short, with_bytes, one_byte_id, two_byte_id, get_r2, packet_size,
  new_invalid_packet, get_r3, read_timer, read_source, read_all, too_large, check_size, read_header,
  get_r4,
}

-- `rtmp_fwb_reset` of the data buffer, with memory from the pool.
unfoldable pub reset_data_buffer : Proto → ℕ → Proto
unfolding rtmp_fwb_reset
reset_data_buffer proto size =
    let (fwb, pool) = rtmp_fwb_reset (some proto.pool) size in
    record proto { data_buffer = fwb; pool = get_or pool proto.pool }

-- The four bytes behind a timer of 0xffffff are only logged.
unfoldable pub extended_timer : Bool → Proto → Channel → ReadBuffer → Step
unfolding reset_data_buffer
extended_timer small proto c b = do
  (unknown, b') ← rtmp_rb_read_int_e small b
  next_state (reset_data_buffer (rtmp_proto_log proto (unknown_addcode unknown)) c.size) b'

unfoldable pub get_r5 : Bool → Proto → ReadBuffer → Step
unfolding extended_timer
get_r5 small proto b = do
  c ← rtmp_proto_get_channel proto
  if c.timer == 0xffffff
      then with_bytes proto b 4 (extended_timer small proto c)
      else next_state (reset_data_buffer proto c.size) b

unfoldable pub count_header_bytes : ℕ → ℕ
count_header_bytes channel_id =
    if int_lt channel_id 64 then 0 else if ltb channel_id 320 then 1 else 2

-- `_get_packet`.
unfoldable pub take_packet : Proto → Outcome (Packet × Proto)
take_packet proto = do
  let p = record proto { pool = (rt_pool_alloc proto.pool packet_size).1 }
  c ← rtmp_proto_get_channel p
  ok (
    record {
      channel_id = p.channel_id;
      channel = c;
      payload = (rtmp_fwb_get_value p.data_buffer).0;
    },
    p,
  )

-- The `while` of `_get_r6` on fuel: a chunk and the header bytes of the next one. Each round takes
-- `hb` bytes of the data at least.
unfoldable pub read_chunks : ℕ → ℕ → ℕ → FixBuffer → ReadBuffer → Outcome (FixBuffer × ReadBuffer)
read_chunks zero chunk hb fwb b =
    if leb (chunk + hb) (rtmp_fwb_get_space fwb) then out_of_fuel else ok (fwb, b)
read_chunks (suc fuel) chunk hb fwb b = elim (leb (chunk + hb) (rtmp_fwb_get_space fwb)) [
  | false ↦ ok (fwb, b)
  | true ↦ do
    (trunk, b₁) ← read_bytes b chunk
    (_, fwb₁) ← rtmp_fwb_write fwb trunk
    (_, b₂) ← rtmp_rb_read_e b₁ hb
    read_chunks fuel chunk hb fwb₁ b₂
]

-- The last piece.
unfoldable pub read_last : FixBuffer × ReadBuffer → Outcome (FixBuffer × ReadBuffer)
read_last (fwb, b) =
    let vl = rtmp_fwb_get_space fwb in
    elim (ltb 0 vl) [
      | false ↦ ok (fwb, b)
      | true ↦ do (dv, b') ← read_bytes b vl; (_, fwb') ← rtmp_fwb_write fwb dv; ok (fwb', b')
    ]

-- `return _get_packet(proto)`, with the data buffer as it has been filled.
unfoldable pub finish : Proto → FixBuffer × ReadBuffer → Step
unfolding take_packet
finish proto (fwb, b) = do
  (pac, proto') ← take_packet (record proto { data_buffer = fwb })
  ok (some pac, proto', b)

-- A data type of 0: four bytes.
unfoldable pub read_four : Proto → ReadBuffer → Step
unfolding finish
read_four proto b = do
  (src, b') ← read_bytes b 4
  (_, fwb) ← rtmp_fwb_write proto.data_buffer src
  finish proto (fwb, b')

unfoldable pub get_r6 : Proto → ReadBuffer → Step
unfolding read_four
get_r6 proto b = do
  let hb = 1 + count_header_bytes proto.channel_id
  c ← rtmp_proto_get_channel proto
  let fuel = suc (rtmp_rb_get_space b)
  if ltb 0 c.data_type
      then (read_chunks fuel proto.read_chunk_size hb proto.data_buffer b >>= read_last)
        >>= finish proto
      else with_bytes proto b 4 (read_four proto)

-- The switch on `proto->state`; in any other state nothing is done.
unfoldable pub step : Bool → Proto → ReadBuffer → Step
step small proto b =
    if proto.state == 0
    then ok (none, start_receive proto, b)
    else if proto.state == 1
    then get_r1 proto b
    else if proto.state == 2
    then get_r2 small proto b
    else if proto.state == 3
    then get_r3 proto b
    else if proto.state == 4
    then get_r4 small proto b
    else if proto.state == 5
    then get_r5 small proto b
    else if proto.state == 6
    then get_r6 proto b
    else missing proto b

-- `do { ... } while(!pac)` on fuel.
unfoldable pub get_packet_loop :
    ℕ → Bool → Proto → ReadBuffer → Outcome (Packet × Proto × ReadBuffer)
get_packet_loop zero small proto b = out_of_fuel
get_packet_loop (suc fuel) small proto b = do
  (pac, proto', b') ← step small proto b
  elim pac [ none ↦ get_packet_loop fuel small proto' b' | some p ↦ ok (p, proto', b') ]

-- From state 0 a packet comes in the seventh round, or the rounds go on for ever.
unfoldable pub rtmp_packet_get_packet :
    Bool → Proto → ReadBuffer → Outcome (Packet × Proto × ReadBuffer)
rtmp_packet_get_packet small proto b = get_packet_loop 7 small proto b
