-- ===== src/Protocol/Invoke.antt =====
-- A call: packed by `amf_pack_call` on one side, and handled by the invoke callback on the other.
use rushkit.Base.{
  ℕ, ◌≡◌, ◌≢◌, ◌^◌, ◌<◌, refl, ◌∙◌, Bool, false, List, ◌∷◌, some, All, Bytes, length,
}
use rushkit.Base.Outcome.{Outcome, ok}
use rushkit.Amf.{Value, string, number, plain, type_of, amf_nil}
use rushkit.Amf.Valid.{IsValid}
use rushkit.Amf.Encode.{pack_values, amf_pack_call}
use rushkit.Amf.Encode.Size.{amf_pack_call_inverse}
use rushkit.Amf.Pickler.Calls.{
  string-IsValid, number-IsValid, nil-IsValid, amf_ap_read_next-amf_pack,
  amf_ap_read_arguments-pack_values, amf_string_equal_distinct,
}
use rushkit.Session.{Packet, Proto}
use rushkit.Protocol.{MethodTable}
use rushkit.Protocol.Send.{result_name}
use rushkit.Protocol.Handlers.{
  connect_name, number_of, take_request_id, answer_call, default_on_packet_invoke,
}

module _ (small : Bool) (table : MethodTable) (now : ℕ) (to_double from_double : ℕ → ℕ)
    (proto : Proto) (pac : Packet) (name : Bytes) (req_id : ℕ) (args : List Value) where
  -- What the callback reads from a call whose name is not "_result".
  pub default_on_packet_invoke_read :
      amf_pack_call small name req_id args ≡ ok (pac.payload)
      → name ≢ result_name
      → length name < 2 ^ 15
      → req_id < 2 ^ 64
      → All IsValid args
      → default_on_packet_invoke small table now to_double from_double proto pac
        ≡ answer_call small table now to_double from_double
            (take_request_id proto false (from_double req_id))
            pac
            (string name)
            (from_double req_id)
            args
  unfolding default_on_packet_invoke pack_values type_of number_of
  default_on_packet_invoke_read packed other hn hr h =
      let payload : pac.payload
          ≡ pack_values small (string name ∷ number req_id ∷ plain amf_nil ∷ args) =
        amf_pack_call_inverse small name req_id args packed in
      rw
        (
          payload,
          amf_ap_read_next-amf_pack small (string name) _ (string-IsValid name hn),
          amf_ap_read_next-amf_pack small (number req_id) _ (number-IsValid req_id hr),
          amf_string_equal_distinct name result_name other,
          amf_ap_read_next-amf_pack small (plain amf_nil) _ nil-IsValid,
          amf_ap_read_arguments-pack_values small args h,
        )
        refl

  handed_on :
      (f : Proto → ℕ → ℕ → Value → List Value → Outcome Proto) (p : Proto) (id : ℕ)
      → table.on_amf_call ≡ some f
      → name ≢ connect_name
      → answer_call small table now to_double from_double p pac (string name) id args
        ≡ f p pac.channel_id id (string name) args
  unfolding answer_call
  handed_on f p id e other = rw (amf_string_equal_distinct name connect_name other) (rw e refl)

  -- A packet with a call that `amf_pack_call` has packed, handled by the library's invoke callback,
  -- reaches the host's `on_amf_call` with the same name, number and arguments, the packet's channel,
  -- and the connection as `take_request_id` leaves it. The name is neither "connect", which the library
  -- answers itself, nor "_result", and has less than 2 ^ 15 bytes; the wire format can carry each
  -- argument.
  pub default_on_packet_invoke-amf_pack_call :
      (f : Proto → ℕ → ℕ → Value → List Value → Outcome Proto)
      → table.on_amf_call ≡ some f
      → amf_pack_call small name req_id args ≡ ok (pac.payload)
      → name ≢ connect_name
      → name ≢ result_name
      → length name < 2 ^ 15
      → req_id < 2 ^ 64
      → All IsValid args
      → default_on_packet_invoke small table now to_double from_double proto pac
        ≡ f
            (take_request_id proto false (from_double req_id))
            pac.channel_id
            (from_double req_id)
            (string name)
            args
  default_on_packet_invoke-amf_pack_call f e packed other other' hn hr h =
      default_on_packet_invoke_read packed other' hn hr h ∙ handed_on f _ _ e other
