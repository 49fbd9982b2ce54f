-- ===== src/Protocol/Handlers.antt =====
-- core/src/protocol.c: the library's own callbacks, and the dispatch on a packet's type.
use rushkit.Base.{
  ℕ, ◌+◌, ◌%◌, ◌^◌, Bool, true, false, List, [], ◌∷◌, ◌++◌, Option, none, some, Bytes, length, take,
  drop, ltb, leb, ◌==◌, if◌then◌else◌,
}
use rushkit.Base.Outcome.{Outcome, ok, abort, assert, ◌>>=◌, ◌>>◌}
use rushkit.Word.{to_long, unpack_int}
use rushkit.Amf.{Value, number, type_of, amf_string}
use rushkit.Amf.Pickler.{
  amf_ap_read_next, amf_ap_read_arguments, amf_string_equal, amf_new_string,
  amf_new_table_elem_list, amf_new_hash,
}
use rushkit.Pool.{rt_pool_alloc}
use rushkit.Session.{
  Packet, Proto, small_chunk_size, no_callback, no_amf_callback, no_such_packet, rtmp_proto_log,
  rtmp_packet_get_last_timer,
}
use rushkit.Packet.Header.{pac_invalid}
use rushkit.Protocol.{MethodTable, Slot, built_in, given}
use rushkit.Protocol.Send.{
  pac_bytes_read, pac_ping, pac_invoke, sent_channel, result_name, rtmp_proto_send_packet,
  rtmp_proto_packet_return,
}

abbrev pub pac_chunk_size : ℕ
pac_chunk_size = 0x01

abbrev pub pac_audio : ℕ
pac_audio = 0x8

abbrev pub pac_video : ℕ
pac_video = 0x9

-- `a < b` on longs.
abbrev pub long_lt : ℕ → ℕ → Bool
long_lt a b = ltb ((a + 2 ^ 63) % 2 ^ 64) ((b + 2 ^ 63) % 2 ^ 64)

-- "connect"
abbrev pub connect_name : Bytes
connect_name = 99 ∷ 111 ∷ 110 ∷ 110 ∷ 101 ∷ 99 ∷ 116 ∷ []

-- "level", "code" and "description"
abbrev connect_keys : List Bytes
connect_keys =
    (108 ∷ 101 ∷ 118 ∷ 101 ∷ 108 ∷ [])
    ∷ (99 ∷ 111 ∷ 100 ∷ 101 ∷ [])
    ∷ (100 ∷ 101 ∷ 115 ∷ 99 ∷ 114 ∷ 105 ∷ 112 ∷ 116 ∷ 105 ∷ 111 ∷ 110 ∷ [])
    ∷ []

-- "status", "NetConnection.Connect.Success" and "Connection Succeeded."
abbrev connect_values : List Bytes
connect_values =
    (115 ∷ 116 ∷ 97 ∷ 116 ∷ 117 ∷ 115 ∷ [])
    ∷ (78 ∷ 101 ∷ 116 ∷ 67 ∷ 111 ∷ 110 ∷ 110 ∷ 101 ∷ 99 ∷ 116 ∷ 105 ∷ 111 ∷ 110 ∷ 46 ∷ 67 ∷ 111
        ∷ 110 ∷ 110 ∷ 101 ∷ 99 ∷ 116 ∷ 46 ∷ 83 ∷ 117 ∷ 99 ∷ 99 ∷ 101 ∷ 115 ∷ 115 ∷ [])
    ∷ (67 ∷ 111 ∷ 110 ∷ 110 ∷ 101 ∷ 99 ∷ 116 ∷ 105 ∷ 111 ∷ 110 ∷ 32 ∷ 83 ∷ 117 ∷ 99 ∷ 99 ∷ 101 ∷ 101
        ∷ 100 ∷ 101 ∷ 100 ∷ 46 ∷ [])
    ∷ []

-- The loop `amf_new_string(&proto->pool, &value_elements[i], values[i])`.
unfoldable pub new_strings : List Bytes → Outcome (List Value)
new_strings [] = ok []
new_strings (s ∷ ss) = do v ← amf_new_string s; vs ← new_strings ss; ok (v ∷ vs)

-- The answer to "connect".
unfoldable pub connect_result : Outcome Value
unfolding new_strings
connect_result = do
  value_elements ← new_strings connect_values
  table_elems ← amf_new_table_elem_list 3 connect_keys value_elements
  ok (amf_new_hash table_elems)

-- `request_id_v->value.number_t`, behind the assert on the type.
unfoldable pub number_of : Value → Outcome ℕ
number_of (number d) = ok d
number_of _ = abort

-- `alloc n` is what the memory of a `malloc` of `n` bytes holds.
unfoldable pub default_on_packet_chunk_size : Bool → (ℕ → Bytes) → Proto → Packet → Outcome Proto
default_on_packet_chunk_size small alloc proto pac = do
  w ← unpack_int small pac.payload
  let chunk_size = to_long w
  let kept = proto.last_data_length
  if leb kept chunk_size
      then ok
          (record proto { last_data = take kept proto.last_data ++ drop kept (alloc chunk_size) })
      else ok (rtmp_proto_log proto small_chunk_size)

-- The number that is unpacked is not used.
unfoldable pub default_on_packet_bytes_read : Bool → Proto → Packet → Outcome Proto
default_on_packet_bytes_read small proto pac = do
  assert (length pac.payload == 4)
  _ ← unpack_int small pac.payload
  ok proto

-- The number of a request from the other side is not given again.
unfoldable pub take_request_id : Proto → Bool → ℕ → Proto
take_request_id proto is_result request_id =
    let following = (request_id + 1) % 2 ^ 64 in
    if is_result
    then proto
    else if long_lt proto.next_request_id following
    then record proto { next_request_id = following }
    else proto

-- A slot with the library's own routine for it; a missing callback is logged with the type.
unfoldable pub call_slot :
    Option Slot → (Proto → Packet → Outcome Proto) → Proto → Packet → Outcome Proto
call_slot none own proto pac = ok (rtmp_proto_log proto (no_callback pac.channel.data_type))
call_slot (some built_in) own proto pac = own proto pac
call_slot (some (given f)) own proto pac = f proto pac

unfoldable pub call_host : Option (Proto → Packet → Outcome Proto) → Proto → Packet → Outcome Proto
call_host none proto pac = ok (rtmp_proto_log proto (no_callback pac.channel.data_type))
call_host (some f) proto pac = f proto pac

module _ (small : Bool) (table : MethodTable) (now : ℕ) where
  unfoldable pub default_on_packet_ping : Proto → Packet → Outcome Proto
  default_on_packet_ping proto pac = do
    (timer, p₁) ← rtmp_packet_get_last_timer proto now pac.channel_id
    let p₂ = record p₁ { pool = (rt_pool_alloc p₁.pool (length pac.payload)).1 }
    (_, _, p₃) ←
        rtmp_proto_send_packet small table p₂ none
          (record {
            channel_id = pac.channel_id;
            channel = sent_channel timer 0 pac_ping;
            payload = pac.payload;
          })
          false
    ok p₃

  -- `to_double` and `from_double` are the machine's conversions of a long to a double and back.
  module _ (to_double from_double : ℕ → ℕ) where
    -- What is done with the call that has been read.
    unfoldable pub answer_call : Proto → Packet → Value → ℕ → List Value → Outcome Proto
    unfolding connect_result
    answer_call proto pac method_name_v request_id args = do
      is_connect ← amf_string_equal method_name_v connect_name
      elim is_connect [
        | true ↦ do
          result_v ← connect_result
          (_, p') ←
              rtmp_proto_packet_return small table to_double now proto none pac.channel_id
                request_id result_v
          ok p'
        | false ↦ elim (table.on_amf_call) [
          | some on_amf_call ↦ on_amf_call proto pac.channel_id request_id method_name_v args
          | none ↦ ok (rtmp_proto_log proto no_amf_callback)
        ]
      ]

    unfoldable pub default_on_packet_invoke : Proto → Packet → Outcome Proto
    unfolding answer_call take_request_id number_of
    default_on_packet_invoke proto pac = do
      (method_name_v, ap₁) ← amf_ap_read_next small pac.payload
      assert (type_of method_name_v == amf_string)
      (request_id_v, ap₂) ← amf_ap_read_next small ap₁
      d ← number_of request_id_v
      let request_id = from_double d
      is_result ← amf_string_equal method_name_v result_name
      (_, ap₃) ← amf_ap_read_next small ap₂
      args ← amf_ap_read_arguments small ap₃
      answer_call (take_request_id proto is_result request_id) pac method_name_v request_id args

    unfoldable pub default_on_packet : (ℕ → Bytes) → Proto → Packet → Outcome Proto
    unfolding call_slot call_host
    default_on_packet alloc proto pac =
        let t = pac.channel.data_type in
        if t == pac_chunk_size
        then call_slot table.on_packet_chunk_size (default_on_packet_chunk_size small alloc) proto
            pac
        else if t == pac_invalid
        then call_host table.on_packet_invalid proto pac
        else if t == pac_bytes_read
        then call_slot table.on_packet_bytes_read (default_on_packet_bytes_read small) proto pac
        else if t == pac_ping
        then call_slot table.on_packet_ping default_on_packet_ping proto pac
        else if t == pac_invoke
        then call_slot table.on_packet_invoke default_on_packet_invoke proto pac
        else if t == pac_audio
        then call_host table.on_packet_audio proto pac
        else if t == pac_video
        then call_host table.on_packet_video proto pac
        else ok (rtmp_proto_log proto (no_such_packet t))
