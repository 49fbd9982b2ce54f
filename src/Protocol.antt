-- ===== src/Protocol.antt =====
-- core/src/protocol.c: the method table, the handshake and the feeding of a connection.
pub mod Send
pub mod Handlers
pub mod Feed
pub mod Lifetime
pub mod Handshake
pub mod Greeting
pub mod Outside
pub mod Invoke
pub mod InOrder
pub mod Refed
pub mod Gathering
pub mod Opening
pub mod Reply
pub mod Connect
pub mod Conversation
use rushkit.Base.{
  ℕ, suc, ◌+◌, ◌-◌, ◌%◌, ◌^◌, Bool, true, false, List, [], ◌∷◌, ◌++◌, Option, none, some, Bytes,
  length, take, leb, ◌==◌, if◌then◌else◌,
}
use rushkit.Base.Outcome.{Outcome, ok, fault, assert, ◌>>=◌, ◌>>◌}
use rushkit.Word.{pack_long}
use rushkit.Amf.{Value}
use rushkit.Buffer.ReadBuffer.{ReadBuffer, rtmp_rb_read}
use rushkit.Buffer.FixBuffer.{
  FixBuffer, rtmp_fwb_reset, rtmp_fwb_free, rtmp_fwb_get_space, rtmp_fwb_write, rtmp_fwb_get_value,
}
use rushkit.Session.{Packet, Proto, replicate}

-- A slot of the table for packets: the library's own routine, or one of the host.
pub data Slot : Type 0 where
  built_in : Slot
  given : (Proto → Packet → Outcome Proto) → Slot

-- RTMP_METHOD_TABLE; `none` is NULL. A callback takes the connection on. What `on_log` does is
-- not seen by the connection. `on_write_data` returns an int.
pub record MethodTable : Type 0 where
  pub on_write_data : Option (Proto → Bytes → Outcome (ℕ × Proto))
  pub on_packet : Option Slot
  pub on_packet_chunk_size : Option Slot
  pub on_packet_invalid : Option (Proto → Packet → Outcome Proto)
  pub on_packet_bytes_read : Option Slot
  pub on_packet_ping : Option Slot
  pub on_packet_invoke : Option Slot
  pub on_packet_audio : Option (Proto → Packet → Outcome Proto)
  pub on_packet_video : Option (Proto → Packet → Outcome Proto)
  pub on_amf_call : Option (Proto → ℕ → ℕ → Value → List Value → Outcome Proto)

unfoldable pub rtmp_proto_method_table_init : MethodTable
rtmp_proto_method_table_init = record {
  on_write_data = none;
  on_packet = some built_in;
  on_packet_chunk_size = some built_in;
  on_packet_invalid = none;
  on_packet_bytes_read = some built_in;
  on_packet_ping = some built_in;
  on_packet_invoke = some built_in;
  on_packet_audio = none;
  on_packet_video = none;
  on_amf_call = none;
}

unfoldable pub proto_write_data : MethodTable → Proto → Bytes → Outcome (ℕ × Proto)
proto_write_data table proto src =
    let p = record proto { num_down_bytes = (proto.num_down_bytes + length src) % 2 ^ 32 } in
    elim (table.on_write_data) [ none ↦ ok (0, p) | some on_write_data ↦ on_write_data p src ]

-- `proto_number[0]`, which is read whether a byte was there or not.
unfoldable pub on_connect : Proto → ReadBuffer → Outcome (Proto × ReadBuffer)
on_connect proto b =
    let (proto_number, _, b') = rtmp_rb_read b 1 in
    elim proto_number [
      | [] ↦ fault
      | x ∷ _ ↦ do assert (x == 3); ok (record proto { pkg_st = 1 }, b')
    ]

-- The first 1537 bytes of the answer.
abbrev pub ack : Bool → Bytes
ack small = 3 ∷ (pack_long small 1 ++ replicate 1532 0)

-- The client's 1536 bytes are there: the answer is the library's own block and theirs.
unfoldable pub answer : Bool → MethodTable → Proto → Outcome Proto
answer small table proto = do
  (_, p₁) ← proto_write_data table proto (ack small)
  let (shake, wl) = rtmp_fwb_get_value p₁.tmp_buf
  assert (wl == 1536)
  (_, p₂) ← proto_write_data table p₁ shake
  fwb ← rtmp_fwb_free p₂.tmp_buf
  ok (record p₂ { tmp_buf = fwb; pkg_st = p₂.pkg_st + 1 })

-- The buffer for the client's bytes is made when the first of them come.
unfoldable pub shake_buffer : FixBuffer → FixBuffer
unfolding rtmp_fwb_reset
shake_buffer fwb = if fwb.capacity == 0 then (rtmp_fwb_reset none 1536).0 else fwb

unfoldable pub on_hand_shake :
    Bool → MethodTable → Proto → ReadBuffer → Outcome (Proto × ReadBuffer)
unfolding shake_buffer
on_hand_shake small table proto b = do
  let tmp = shake_buffer proto.tmp_buf
  let (shake, len, b') = rtmp_rb_read b (rtmp_fwb_get_space tmp)
  (_, fwb) ← rtmp_fwb_write tmp (take len shake)
  let p = record proto { tmp_buf = fwb }
  p' ← if rtmp_fwb_get_space fwb == 0 then answer small table p else ok p
  ok (p', b')

unfoldable pub on_ack_back : Proto → ReadBuffer → Proto × ReadBuffer
on_ack_back proto b =
    let (_, len, b') = rtmp_rb_read b proto.ack_back_len in
    let left = proto.ack_back_len - len in
    if left == 0
    then (record proto { ack_back_len = 1536; pkg_st = proto.pkg_st + 1 }, b')
    else (record proto { ack_back_len = left }, b')
