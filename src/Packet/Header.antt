-- ===== src/Packet/Header.antt =====
-- core/src/packet.c: the first steps of `rtmp_packet_get_packet`, up to the end of a packet's header. A
-- step takes the connection and the read buffer on and may yield a packet.
use rushkit.Base.{
  ℕ, ◌+◌, ◌-◌, ◌*◌, ◌/◌, ◌%◌, ◌^◌, Bool, true, false, Option, none, some, Bytes, take, leb, ◌==◌,
  if◌then◌else◌,
}
use rushkit.Base.Outcome.{Outcome, ok, assert, ◌>>=◌, ◌>>◌}
use rushkit.Word.{is_negative_short}
use rushkit.Pool.{rt_pool_alloc}
use rushkit.Buffer.ReadBuffer.{
  ReadBuffer, rtmp_rb_get_space, rtmp_rb_read_e, rtmp_rb_read_short_e, rtmp_rb_read_int_e,
  rtmp_rb_read_byte_e, rtmp_rb_read_medium_int_e, rtmp_rb_assert_size,
}
use rushkit.Session.{
  Channel, Packet, Proto, int_lt, rtmp_proto_get_channel, put_channel, rtmp_packet_reset,
}

abbrev pub channel_new : ℕ
channel_new = 0

abbrev pub channel_same_source : ℕ
channel_same_source = 1

abbrev pub channel_timer_change : ℕ
channel_timer_change = 2

abbrev pub pac_invalid : ℕ
pac_invalid = 0x89

abbrev pub Step : Type 0
Step = Outcome (Option Packet × Proto × ReadBuffer)

-- A step that yields no packet: `proto->state++; return NULL`.
abbrev pub next_state : Proto → ReadBuffer → Step
next_state proto b = ok (none, record proto { state = proto.state + 1 }, b)

-- A step that returns because data is missing, which the read buffer notes.
abbrev pub missing : Proto → ReadBuffer → Step
missing proto b = ok (none, proto, b)

unfoldable pub start_receive : Proto → Proto
unfolding rtmp_packet_reset
start_receive proto = let p = rtmp_packet_reset proto in record p { state = p.state + 1 }

unfoldable pub get_r1 : Proto → ReadBuffer → Step
get_r1 proto b = do
  (first_byte, b') ← rtmp_rb_read_byte_e b
  next_state (record proto { packet_mask = first_byte / 2 ^ 6; channel_id = first_byte % 2 ^ 6 }) b'

-- `64 +` a short, as an int.
abbrev pub add_short : ℕ → ℕ → ℕ
add_short n w = if is_negative_short w then (n + w + 2 ^ 32 - 2 ^ 16) % 2 ^ 32 else n + w

-- `if(!rtmp_rb_assert_size(pbuffer, sz)) return NULL;`
unfoldable pub with_bytes : Proto → ReadBuffer → ℕ → (ReadBuffer → Step) → Step
with_bytes proto b sz go_on = elim ((rtmp_rb_assert_size b sz).0) [
  | true ↦ go_on b
  | false ↦ missing proto (rtmp_rb_assert_size b sz).1
]

-- The two longer forms of the channel's number.
unfoldable pub one_byte_id : Proto → ReadBuffer → Step
one_byte_id proto b = do
  (x, b') ← rtmp_rb_read_byte_e b
  next_state (record proto { channel_id = 64 + x }) b'

unfoldable pub two_byte_id : Bool → Proto → ReadBuffer → Step
two_byte_id small proto b = do
  (x, b') ← rtmp_rb_read_short_e small b
  next_state (record proto { channel_id = add_short 64 x }) b'

unfoldable pub get_r2 : Bool → Proto → ReadBuffer → Step
unfolding with_bytes one_byte_id two_byte_id
get_r2 small proto b =
    if proto.channel_id == 0
    then with_bytes proto b 1 (one_byte_id proto)
    else if proto.channel_id == 1
    then with_bytes proto b 2 (two_byte_id small proto)
    else next_state proto b

-- The size of a PACKET, six ints, a pointer and an int, aligned to 8 bytes.
abbrev pub packet_size : ℕ
packet_size = 40

unfoldable pub new_invalid_packet : Proto → Bytes → Outcome (Packet × Proto)
new_invalid_packet proto payload = do
  let p = record proto { pool = (rt_pool_alloc proto.pool packet_size).1 }
  c ← rtmp_proto_get_channel p
  let invalid = record c { data_type = pac_invalid }
  ok (record { channel_id = p.channel_id; channel = invalid; payload = payload }, p)

unfoldable pub get_r3 : Proto → ReadBuffer → Step
get_r3 proto b = do assert (int_lt proto.channel_id 64); next_state proto b

-- The header's fields, as many as the mask says, in the order of the wire.
unfoldable pub read_timer : Channel → ReadBuffer → Outcome (Channel × ReadBuffer)
read_timer c b = do (timer, b₁) ← rtmp_rb_read_medium_int_e b; ok (record c { timer = timer }, b₁)

unfoldable pub read_source : Channel → ReadBuffer → Outcome (Channel × ReadBuffer)
unfolding read_timer
read_source c b = do
  (c₁, b₁) ← read_timer c b
  (size, b₂) ← rtmp_rb_read_medium_int_e b₁
  (data_type, b₃) ← rtmp_rb_read_byte_e b₂
  ok (record c₁ { size = size; data_type = data_type }, b₃)

unfoldable pub read_all : Bool → Channel → ReadBuffer → Outcome (Channel × ReadBuffer)
unfolding read_source
read_all small c b = do
  (c₁, b₁) ← read_source c b
  (stream_id, b₂) ← rtmp_rb_read_int_e small b₁
  ok (record c₁ { stream_id = stream_id }, b₂)

-- A size from 32 KiB on: the rest of the buffer is the packet.
unfoldable pub too_large : Proto → ReadBuffer → Step
unfolding new_invalid_packet
too_large proto b = do
  let space = rtmp_rb_get_space b
  (src, b') ← rtmp_rb_read_e b space
  (pac, proto') ← new_invalid_packet proto (take space src)
  ok (some pac, proto', b')

-- What follows the switch of `_get_r4`, with the channel as the header left it.
unfoldable pub check_size : Proto → Channel × ReadBuffer → Step
check_size proto (c, b) =
    if leb (32 * 1024) c.size
    then too_large (put_channel proto c) b
    else next_state (put_channel proto c) b

-- The switch on the mask.
unfoldable pub read_header : Bool → Proto → Channel → ReadBuffer → Step
read_header small proto c b =
    if proto.packet_mask == channel_new
    then with_bytes proto b 11 (λ b'. read_all small c b' >>= check_size proto)
    else if proto.packet_mask == channel_same_source
    then with_bytes proto b 7 (λ b'. read_source c b' >>= check_size proto)
    else if proto.packet_mask == channel_timer_change
    then with_bytes proto b 3 (λ b'. read_timer c b' >>= check_size proto)
    else check_size proto (c, b)

unfoldable pub get_r4 : Bool → Proto → ReadBuffer → Step
get_r4 small proto b = do c ← rtmp_proto_get_channel proto; read_header small proto c b
