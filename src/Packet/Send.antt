-- ===== src/Packet/Send.antt =====
-- core/src/packet.c: `rtmp_packet_write_packet`.
pub mod Headers
pub mod Chunks
pub mod NewPacket
pub mod Masks
use rushkit.Base.{
  ℕ, zero, suc, ◌+◌, ◌-◌, ◌*◌, ◌%◌, ◌^◌, Bool, true, false, not, List, [], ◌∷◌, ◌++◌, Bytes, length,
  take, drop, ltb, leb, ◌==◌, ◌&&◌, if◌then◌else◌,
}
use rushkit.Base.Outcome.{Outcome, ok, abort, out_of_fuel, ◌>>=◌, ◌>>◌}
use rushkit.Word.{to_long, is_negative_int}
use rushkit.Buffer.WriteBuffer.{
  WriteBuffer, rtmp_wb_write, rtmp_wb_tell, rtmp_wb_write_short, rtmp_wb_write_byte,
  rtmp_wb_write_medium_int, rtmp_wb_write_reverse_int,
}
use rushkit.Session.{Channel, Packet, Proto, at, set, int_lt, init_channel}

abbrev pub channel_continue : ℕ
channel_continue = 3

-- `packet_mask << 6`, as a byte.
abbrev pub mask_bits : ℕ → ℕ
mask_bits packet_mask = packet_mask * 2 ^ 6 % 256

-- The three forms of the header's first bytes.
unfoldable pub id_in_two : WriteBuffer → ℕ → ℕ → Outcome (ℕ × WriteBuffer)
id_in_two b packet_mask id = do
  (_, b₁) ← rtmp_wb_write_byte b (mask_bits packet_mask)
  (_, b₂) ← rtmp_wb_write_byte b₁ ((id - 64) % 256)
  ok (2, b₂)

unfoldable pub id_in_three : Bool → WriteBuffer → ℕ → ℕ → Outcome (ℕ × WriteBuffer)
id_in_three small b packet_mask id = do
  (_, b₁) ← rtmp_wb_write_byte b ((packet_mask * 2 ^ 6 + 1) % 256)
  (_, b₂) ← rtmp_wb_write_short small b₁ ((id - 64) % 2 ^ 16)
  ok (3, b₂)

unfoldable pub id_in_one : WriteBuffer → ℕ → ℕ → Outcome (ℕ × WriteBuffer)
id_in_one b packet_mask id = do
  (_, b₁) ← rtmp_wb_write_byte b ((packet_mask * 2 ^ 6 + id) % 256)
  ok (1, b₁)

-- The number is that of the connection, `proto->channel_id`; the last argument is not used.
unfoldable pub write_header_bytes : Bool → Proto → WriteBuffer → ℕ → ℕ → Outcome (ℕ × WriteBuffer)
unfolding id_in_one id_in_two id_in_three
write_header_bytes small proto b packet_mask channel_id =
    if not (int_lt proto.channel_id 64) && ltb proto.channel_id 256
    then id_in_two b packet_mask proto.channel_id
    else if not (int_lt proto.channel_id 256)
    then id_in_three small b packet_mask proto.channel_id
    else if int_lt proto.channel_id 2
    then abort
    else id_in_one b packet_mask proto.channel_id

-- The mask for a channel that is in use, from what the packet shares with the last one.
unfoldable pub mask_for : Channel → Channel → ℕ
mask_for last c =
    let source : ℕ = if last.stream_id == c.stream_id then 1 else 0 in
    let timer : ℕ = if last.timer == c.timer then 1 else 0 in
    if last.data_type == c.data_type && last.size == c.size then source + 1 + timer else source

unfoldable pub write_source : WriteBuffer → ℕ → Channel → Outcome WriteBuffer
write_source b dtime c = do
  (_, b₁) ← rtmp_wb_write_medium_int b dtime
  (_, b₂) ← rtmp_wb_write_medium_int b₁ c.size
  (_, b₃) ← rtmp_wb_write_byte b₂ (c.data_type % 256)
  ok b₃

-- The part of the header that the mask asks for, and the channel as it is kept.
unfoldable pub write_header :
    Bool → WriteBuffer → ℕ → ℕ → Channel → Channel → Outcome (Channel × WriteBuffer)
write_header small b packet_mask dtime last c =
    if packet_mask == 2
    then (do (_, b₁) ← rtmp_wb_write_medium_int b dtime; ok (record last { timer = c.timer }, b₁))
    else if packet_mask == 1
    then (do
      b₁ ← write_source b dtime c
      ok (record last { timer = c.timer; data_type = c.data_type; size = c.size }, b₁))
    else if packet_mask == 0
    then (do
      b₁ ← write_source b dtime c
      (_, b₂) ← rtmp_wb_write_reverse_int small b₁ (to_long c.stream_id)
      ok (record c { used = last.used }, b₂))
    else ok (last, b)

-- `while(rL > write_chunk_size)` on fuel, and the last piece: a chunk and header bytes again and
-- again. Each round takes `chunk` bytes.
unfoldable pub write_last : WriteBuffer → Bytes → Outcome WriteBuffer
write_last b p = if ltb 0 (length p) then (do (_, b₁) ← rtmp_wb_write b p; ok b₁) else ok b

unfoldable pub write_chunks : ℕ → Bool → Proto → WriteBuffer → ℕ → Bytes → Outcome WriteBuffer
unfolding write_last
write_chunks zero small proto b channel_id p =
    if ltb proto.write_chunk_size (length p) then out_of_fuel else write_last b p
write_chunks (suc fuel) small proto b channel_id p = elim (ltb proto.write_chunk_size (length p)) [
  | false ↦ write_last b p
  | true ↦ do
    (_, b₁) ← rtmp_wb_write b (take proto.write_chunk_size p)
    (_, b₂) ← write_header_bytes small proto b₁ channel_continue channel_id
    write_chunks fuel small proto b₂ channel_id (drop proto.write_chunk_size p)
]

-- The outgoing channel as the packet finds it, and the mask.
unfoldable pub out_channel : Channel → Channel → Channel × ℕ
unfolding init_channel mask_for
out_channel last c = if last.used == 0 then (init_channel, 0) else (last, mask_for last c)

-- The time that is sent, an int.
abbrev pub sent_time : Bool → Channel → Channel → ℕ
sent_time timer_relative last c =
    if timer_relative then (c.timer + 2 ^ 32 - last.timer) % 2 ^ 32 else c.timer

-- What is returned is the number of bytes in the buffer, with the connection and the buffer.
unfoldable pub rtmp_packet_write_packet :
    Bool → Proto → WriteBuffer → Packet → Bool → Outcome (ℕ × Proto × WriteBuffer)
unfolding out_channel
rtmp_packet_write_packet small proto b pac timer_relative = do
  let c = record (pac.channel) { size = length pac.payload % 2 ^ 32 }
  old ← at proto.channels_out pac.channel_id
  let (last, packet_mask) = out_channel old c
  (_, b₁) ← write_header_bytes small proto b packet_mask pac.channel_id
  (kept, b₂) ← write_header small b₁ packet_mask (sent_time timer_relative last c) last c
  b₃ ← write_chunks (length pac.payload) small proto b₂ pac.channel_id pac.payload
  ok (
    rtmp_wb_tell b₃,
    record proto { channels_out = set proto.channels_out pac.channel_id kept },
    b₃,
  )
