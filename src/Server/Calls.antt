-- ===== src/Server/Calls.antt =====
-- aux/connection.cpp: the server's callbacks, `initMethodTable` and the calls that it answers.
use rushkit.Base.{
  ℕ, ◌≡◌, ◌≢◌, ◌<◌, ◌^◌, ◌+◌, refl, ap, ◌∙◌, Bool, true, false, List, [], ◌∷◌, none, some, All,
  Bytes, length, ◌==◌, arith, ◌%◌, Bool-cases, inl, inr,
}
use rushkit.Base.Outcome.{Outcome, ok, abort, assert, ◌>>=◌, ◌>>◌}
use rushkit.Amf.{Value, string, number}
use rushkit.Amf.Valid.{IsValid}
use rushkit.Amf.Encode.{amf_pack_call}
use rushkit.Amf.Pickler.{
  amf_string_equal, string_content, same_bytes, amf_new_number, amf_new_string,
}
use rushkit.Amf.Pickler.Calls.{amf_string_equal_distinct}
use rushkit.Session.{Packet, Proto, at}
use rushkit.Protocol.{MethodTable, rtmp_proto_method_table_init}
use rushkit.Protocol.Send.{result_name, rtmp_proto_packet_return, rtmp_proto_call}
use rushkit.Protocol.Handlers.{connect_name, long_lt, take_request_id, default_on_packet_invoke}
use rushkit.Protocol.Invoke.{default_on_packet_invoke-amf_pack_call}
use rushkit.Server.{Server, on_write_data}

-- "add", "hihi" and "greeting"
abbrev pub add_name : Bytes
add_name = 97 ∷ 100 ∷ 100 ∷ []

abbrev hihi : Bytes
hihi = 104 ∷ 105 ∷ 104 ∷ 105 ∷ []

abbrev greeting : Bytes
greeting = 103 ∷ 114 ∷ 101 ∷ 101 ∷ 116 ∷ 105 ∷ 110 ∷ 103 ∷ []

-- `value.number_t`, whatever the type: `bits` are the 64 bits of the union in a value that is no number.
unfoldable pub number_t : (Value → ℕ) → Value → ℕ
number_t bits (number d) = d
number_t bits v = bits v

-- `write` is the system's call and `add_double` the machine's sum of two doubles.
module _ (small : Bool) (to_double : ℕ → ℕ) (now : ℕ) (bits : Value → ℕ)
    (add_double : ℕ → ℕ → ℕ) where
  -- `_on_amf_call`, with the table that the connection has.
  unfoldable pub on_amf_call : MethodTable → Proto → ℕ → ℕ → Value → List Value → Outcome Proto
  unfolding number_t
  on_amf_call table proto channel_id request_id method_name_v args = do
    is_add ← amf_string_equal method_name_v add_name
    elim is_add [
      | false ↦ ok proto
      | true ↦ do
        assert (length args == 2)
        v1 ← at args 0
        v2 ← at args 1
        let result_v = amf_new_number (add_double (number_t bits v1) (number_t bits v2))
        (_, p₁) ←
            rtmp_proto_packet_return small table to_double now proto none channel_id request_id
              result_v
        word ← amf_new_string hihi
        (_, p₂) ← rtmp_proto_call small table to_double now p₁ greeting (word ∷ [])
        ok p₂
    ]

  -- `Connection::initMethodTable`. The callback sends with a table that has the same `on_write_data`, which is all that
  -- sending looks at.
  unfoldable pub init_method_table : (ℕ → Bytes → ℕ) → Server → MethodTable
  unfolding rtmp_proto_method_table_init
  init_method_table write server =
      let table = record rtmp_proto_method_table_init {
        on_write_data = some (on_write_data write server);
      } in
      record table { on_amf_call = some (on_amf_call table) }

take_request_id_only :
    (proto : Proto) (is_result : Bool) (n : ℕ)
    → take_request_id proto is_result n
      ≡ record proto { next_request_id = (take_request_id proto is_result n).next_request_id }
unfolding take_request_id
take_request_id_only proto true n = refl
take_request_id_only proto false n =
    elim (Bool-cases (long_lt proto.next_request_id ((n + 1) % 2 ^ 64))) [
      | inl larger ↦ rw larger refl
      | inr smaller ↦ rw smaller refl
    ]

module _ (small : Bool) (now : ℕ) (to_double from_double : ℕ → ℕ) (bits : Value → ℕ)
    (add_double : ℕ → ℕ → ℕ) (write : ℕ → Bytes → ℕ) (server : Server) where
  abbrev table : MethodTable
  table = init_method_table small to_double now bits add_double write server

  handled :
      (proto : Proto) (pac : Packet) (name : Bytes) (req_id : ℕ) (args : List Value)
      → amf_pack_call small name req_id args ≡ ok (pac.payload)
      → name ≢ connect_name
      → name ≢ result_name
      → length name < 2 ^ 15
      → req_id < 2 ^ 64
      → All IsValid args
      → (sender : MethodTable) × (default_on_packet_invoke small table now to_double from_double
            proto pac
          ≡ on_amf_call small to_double now bits add_double sender
              (take_request_id proto false (from_double req_id))
              pac.channel_id
              (from_double req_id)
              (string name)
              args)
  unfolding init_method_table
  handled proto pac name req_id args packed other other' hn hr h = (
    _,
    default_on_packet_invoke-amf_pack_call small table now to_double from_double proto pac name
        req_id args _ refl packed other other' hn hr h,
  )

  wrong_count :
      (sender : MethodTable) (proto : Proto) (channel_id request_id : ℕ) (args : List Value)
      → length args ≢ 2
      → on_amf_call small to_double now bits add_double sender proto channel_id request_id
          (string add_name)
          args
        ≡ abort
  unfolding on_amf_call amf_string_equal string_content same_bytes
  wrong_count sender proto channel_id request_id args h =
      let differs : (length args == 2) ≡ false = ground arith in rw differs refl

  other_name :
      (sender : MethodTable) (proto : Proto) (channel_id request_id : ℕ) (name : Bytes)
      (args : List Value)
      → name ≢ add_name
      → on_amf_call small to_double now bits add_double sender proto channel_id request_id
          (string name)
          args
        ≡ ok proto
  unfolding on_amf_call
  other_name sender proto channel_id request_id name args h =
      rw (amf_string_equal_distinct name add_name h) refl

  -- A packed call of "add" with any number of arguments but two, handled by the library's invoke callback with the
  -- server's method table, fails an assert: one client's call stops the server. The arguments are values that the wire
  -- format can carry.
  pub default_on_packet_invoke_wrong_count :
      (proto : Proto) (pac : Packet) (req_id : ℕ) (args : List Value)
      → amf_pack_call small add_name req_id args ≡ ok (pac.payload)
      → req_id < 2 ^ 64
      → All IsValid args
      → length args ≢ 2
      → default_on_packet_invoke small table now to_double from_double proto pac ≡ abort
  default_on_packet_invoke_wrong_count proto pac req_id args packed hr h count =
      let (sender, e) =
        handled proto pac add_name req_id args packed (λ e. cc) (λ e. cc) (omega arith) hr h in
      e
      ∙ wrong_count sender (take_request_id proto false (from_double req_id)) pac.channel_id
          (from_double req_id) args count

  -- A packed call of any other name, except "connect" and "_result", is not answered: nothing is sent,
  -- and only the number for the next request may change.
  pub default_on_packet_invoke_other_name :
      (proto : Proto) (pac : Packet) (name : Bytes) (req_id : ℕ) (args : List Value)
      → amf_pack_call small name req_id args ≡ ok (pac.payload)
      → name ≢ connect_name
      → name ≢ result_name
      → name ≢ add_name
      → length name < 2 ^ 15
      → req_id < 2 ^ 64
      → All IsValid args
      → (n : ℕ) × (default_on_packet_invoke small table now to_double from_double proto pac
          ≡ ok (record proto { next_request_id = n }))
  unfolding take_request_id
  default_on_packet_invoke_other_name proto pac name req_id args packed nc nr na hn hr h =
      let p = take_request_id proto false (from_double req_id) in
      let (sender, e) = handled proto pac name req_id args packed nc nr hn hr h in
      (
        p.next_request_id,
        e
            ∙ other_name sender p pac.channel_id (from_double req_id) name args na
            ∙ ap ok (take_request_id_only proto false (from_double req_id)),
      )
