-- ===== src/Protocol/Send.antt =====
-- core/src/protocol.c: what a connection sends. `now` is what `clock` tells, in milliseconds. The memory
-- that the AMF routines take from the pool is not counted in it.
use rushkit.Base.{
  ℕ, ◌+◌, ◌%◌, ◌^◌, Bool, true, false, List, [], ◌∷◌, Option, none, some, Bytes, length, ltb,
  if◌then◌else◌,
}
use mathlib.Core.Option.{get_or}
use rushkit.Base.Outcome.{Outcome, ok, assert, ◌>>=◌, ◌>>◌}
use rushkit.Word.{pack_long}
use rushkit.Amf.{Value, string, number, plain, amf_nil}
use rushkit.Amf.Encode.{amf_pack_arguments, amf_pack_call}
use rushkit.Pool.{Pool}
use rushkit.Buffer.WriteBuffer.{rtmp_wb_init, rtmp_wb_get_value}
use rushkit.Session.{Channel, Packet, Proto, rtmp_packet_get_last_timer}
use rushkit.Packet.Send.{rtmp_packet_write_packet}
use rushkit.Protocol.{MethodTable, proto_write_data}

abbrev pub pac_bytes_read : ℕ
pac_bytes_read = 0x03

abbrev pub pac_ping : ℕ
pac_ping = 0x4

abbrev pub pac_invoke : ℕ
pac_invoke = 0x14

-- "_result"
abbrev pub result_name : Bytes
result_name = 95 ∷ 114 ∷ 101 ∷ 115 ∷ 117 ∷ 108 ∷ 116 ∷ []

-- The channel of a packet that is sent with the stream 0. The field `used` is not set, and not read.
abbrev pub sent_channel : ℕ → ℕ → ℕ → Channel
sent_channel timer size data_type = record {
  used = 0;
  timer = timer;
  size = size;
  data_type = data_type;
  stream_id = 0;
}

abbrev pub is_set {ℓ} : {A : Type ℓ} → Option A → Bool
is_set none = false
is_set (some a) = true

-- The pool after a write: `none` stands for the connection's own.
abbrev pub put_pool : Option Pool → Pool → Proto → Option Pool × Proto
put_pool none pool proto = (none, record proto { pool = pool })
put_pool (some _) pool proto = (some pool, proto)

module _ (small : Bool) (table : MethodTable) where
  unfoldable pub rtmp_proto_send_packet :
      Proto → Option Pool → Packet → Bool → Outcome (ℕ × Option Pool × Proto)
  rtmp_proto_send_packet proto ppool pac timer_relative = do
    let b = rtmp_wb_init (get_or ppool proto.pool) 1024
    (_, p₁, b') ← rtmp_packet_write_packet small proto b pac timer_relative
    let (out_data, out_len) = rtmp_wb_get_value b'
    let (ppool', p₂) = put_pool ppool b'.pool p₁
    assert (is_set table.on_write_data)
    assert (ltb 0 out_len)
    (n, p₃) ← proto_write_data table p₂ out_data
    ok (n, ppool', p₃)

  unfoldable pub rtmp_proto_send_bytes_read : Proto → Outcome Proto
  unfolding rtmp_proto_send_packet
  rtmp_proto_send_bytes_read proto = do
    let p = pack_long small proto.num_up_bytes
    (_, _, p') ←
        rtmp_proto_send_packet proto none
          (record {
            channel_id = 2;
            channel = sent_channel 0 (length p) pac_bytes_read;
            payload = p;
          })
          false
    ok p'

  -- `to_double` is the machine's conversion of a long to a double.
  module _ (to_double : ℕ → ℕ) (now : ℕ) where
    unfoldable pub rtmp_proto_call : Proto → Bytes → List Value → Outcome (ℕ × Proto)
    unfolding rtmp_proto_send_packet
    rtmp_proto_call proto method_name args = do
      (timer, p₁) ← rtmp_packet_get_last_timer proto now 3
      let request_id = p₁.next_request_id
      let p₂ = record p₁ { next_request_id = (request_id + 1) % 2 ^ 64 }
      payload ← amf_pack_call small method_name (to_double request_id) args
      (_, _, p₃) ←
          rtmp_proto_send_packet p₂ none
            (record {
              channel_id = 3;
              channel = sent_channel timer 0 pac_invoke;
              payload = payload;
            })
            false
      ok (request_id, p₃)

    -- The C function has no `return`; the pool and the connection are what it changes.
    unfoldable pub rtmp_proto_packet_return :
        Proto → Option Pool → ℕ → ℕ → Value → Outcome (Option Pool × Proto)
    unfolding rtmp_proto_send_packet
    rtmp_proto_packet_return proto ppool channel_id request_id ret_val = do
      let arguments : List Value =
          string result_name ∷ number (to_double request_id) ∷ plain amf_nil ∷ ret_val ∷ []
      (timer, p₁) ← rtmp_packet_get_last_timer proto now channel_id
      payload ← amf_pack_arguments small arguments
      let pac : Packet = record {
        channel_id = channel_id;
        channel = sent_channel timer 0 pac_invoke;
        payload = payload;
      }
      if ltb 0 (length payload)
          then (do (_, ppool', p₂) ← rtmp_proto_send_packet p₁ ppool pac false; ok (ppool', p₂))
          else ok (ppool, p₁)
