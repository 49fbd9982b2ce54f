-- ===== src/Protocol/Connect.antt =====
-- core/src/protocol.c: the answer to "connect", from the call's bytes to the answer's.
use rushkit.Base.{
  ℕ, ◌+◌, ◌-◌, ◌%◌, ◌^◌, ◌<◌, ◌≡◌, ◌≢◌, refl, ap, Bool, Bool-cases, if-true, if-false, inl, inr,
  ◌∙◌, true, false, List, [], ◌∷◌, ◌++◌, none, All, Bytes, arith,
}
use rushkit.Base.Outcome.{ok, ◌>>=◌}
use rushkit.Amf.{Value, string, hash, elem, no_elems}
use rushkit.Amf.Valid.{IsValid}
use rushkit.Amf.Encode.{amf_pack_call}
use rushkit.Amf.Pickler.{
  amf_string_equal, amf_new_string, amf_new_count_string, amf_new_table_elem_list, amf_new_hash,
}
use rushkit.Session.{Packet, Proto, wrote}
use rushkit.Protocol.{MethodTable}
use rushkit.Protocol.Send.{result_name, rtmp_proto_packet_return}
use rushkit.Protocol.Handlers.{
  connect_name, connect_result, new_strings, long_lt, take_request_id, answer_call,
  default_on_packet_invoke,
}
use rushkit.Protocol.Handshake.{recording}
use rushkit.Protocol.Invoke.{default_on_packet_invoke_read}
use rushkit.Protocol.Reply.{
  CanAnswer, packet_bytes, answer_packet, rtmp_proto_packet_return-packet_on,
}

-- The level "status", the code "NetConnection.Connect.Success", the description "Connection Succeeded."
abbrev pub connect_answer : Value
connect_answer = hash (
    elem (108 ∷ 101 ∷ 118 ∷ 101 ∷ 108 ∷ []) (string (115 ∷ 116 ∷ 97 ∷ 116 ∷ 117 ∷ 115 ∷ [])) (
      elem (99 ∷ 111 ∷ 100 ∷ 101 ∷ [])
        (string (
          78 ∷ 101 ∷ 116 ∷ 67 ∷ 111 ∷ 110 ∷ 110 ∷ 101 ∷ 99 ∷ 116 ∷ 105 ∷ 111 ∷ 110 ∷ 46 ∷ 67 ∷ 111
          ∷ 110 ∷ 110 ∷ 101 ∷ 99 ∷ 116 ∷ 46 ∷ 83 ∷ 117 ∷ 99 ∷ 99 ∷ 101 ∷ 115 ∷ 115 ∷ []))
        (elem (100 ∷ 101 ∷ 115 ∷ 99 ∷ 114 ∷ 105 ∷ 112 ∷ 116 ∷ 105 ∷ 111 ∷ 110 ∷ [])
          (string (
            67 ∷ 111 ∷ 110 ∷ 110 ∷ 101 ∷ 99 ∷ 116 ∷ 105 ∷ 111 ∷ 110 ∷ 32 ∷ 83 ∷ 117 ∷ 99 ∷ 99 ∷ 101
            ∷ 101 ∷ 100 ∷ 101 ∷ 100 ∷ 46 ∷ []))
          no_elems)))

connect_result_lem : connect_result ≡ ok connect_answer
unfolding connect_result new_strings amf_new_string amf_new_count_string amf_new_table_elem_list
    amf_new_hash
connect_result_lem = refl

same_first : (x y : ℕ) (xs ys : Bytes) → x ∷ xs ≡ y ∷ ys → x ≡ y
same_first x y xs ys e = cc

connect_distinct : connect_name ≢ result_name
connect_distinct e = omega (arith, same_first 99 95 _ _ e)

amf_string_equal_same : amf_string_equal (string connect_name) connect_name ≡ ok true
unfolding amf_string_equal
amf_string_equal_same = refl

take_request_id_lem :
    (proto : Proto) (is_result : Bool) (rid : ℕ)
    → (n : ℕ) × (take_request_id proto is_result rid ≡ record proto { next_request_id = n })
unfolding take_request_id
take_request_id_lem proto true rid = (_, refl)
take_request_id_lem proto false rid =
    elim (Bool-cases (long_lt proto.next_request_id ((rid + 1) % 2 ^ 64))) [
      | inl e ↦ (_, if-true _ _ _ e)
      | inr e ↦ (_, if-false _ _ _ e)
    ]

renumbered :
    {cid now d : ℕ} {v : Value} {ps : List Bytes} {end : Bytes} (p : Proto) (n : ℕ)
    → CanAnswer p cid now d v ps end
    → CanAnswer (record p { next_request_id = n }) cid now d v ps end
renumbered p n a = record {
  can = record {
    lo = a.can.lo;
    hi = a.can.hi;
    chunk = a.can.chunk;
    last = a.can.last;
    known = a.can.known;
    used = a.can.used;
    pool_valid = a.can.pool_valid;
  };
  cid_fits = a.cid_fits;
  timer = a.timer;
  timed = a.timed;
  cut = a.cut;
  short = a.short;
}

module _ (table : MethodTable) (now : ℕ) (to_double from_double : ℕ → ℕ) where
  answered_by :
      (proto p' : Proto) (pac : Packet) (rid : ℕ) (args : List Value)
      → rtmp_proto_packet_return true
          (recording table)
          to_double
          now
          proto
          none
          pac.channel_id
          rid
          connect_answer
        ≡ ok (none, p')
      → answer_call true
          (recording table)
          now
          to_double
          from_double
          proto
          pac
          (string connect_name)
          rid
          args
        ≡ ok p'
  unfolding answer_call
  answered_by proto p' pac rid args e =
      rw (amf_string_equal_same) (rw (connect_result_lem) (ap (λ o. o >>= (λ r. ok r.1)) e))

  -- On a little-endian machine, a call of "connect" that was packed on one, with a number below 2 ^ 64
  -- and arguments that the wire format can carry, is answered by the library and not handed to the
  -- host: the invoke callback returns, and has sent one packet, a "_result" with the number of the call
  -- and the values "status", "NetConnection.Connect.Success" and "Connection Succeeded.", on the channel
  -- of the call, with a header that is shortened against the last packet sent there. The number is
  -- converted from a double and back. The channel of the call is below 64, in use for sending, and has a
  -- timer; the connection's own number is from 2 to 63 and its pool is valid; the answer falls into
  -- the given chunks of the size that the connection writes, one byte at least, and stays below 2 ^ 29
  -- bytes; and the host only records what it is given to write.
  pub default_on_packet_invoke-connect_answer :
      (proto : Proto) (pac : Packet) (req_id : ℕ) (args : List Value) (ps : List Bytes)
      (end : Bytes)
      → amf_pack_call true connect_name req_id args ≡ ok (pac.payload)
      → req_id < 2 ^ 64
      → All IsValid args
      → (a : CanAnswer proto pac.channel_id now
          (to_double (from_double req_id))
          connect_answer
          ps
          end)
      → (p' : Proto) × (default_on_packet_invoke true
            (recording table)
            now
            to_double
            from_double
            proto
            pac
          ≡ ok p')
        × (p'.events
            ≡ proto.events
              ++ (wrote (
                    packet_bytes proto a.can.last
                      (answer_packet pac.channel_id
                        ((now + 2 ^ 32 - a.timer) % 2 ^ 32)
                        (to_double (from_double req_id))
                        connect_answer)
                      ps
                      end)
                  ∷ []))
  unfolding renumbered
  default_on_packet_invoke-connect_answer proto pac req_id args ps end packed hr h a =
      let (n, t) = take_request_id_lem proto false (from_double req_id) in
      let (p', e, w) =
        rtmp_proto_packet_return-packet_on table to_double now
          (record proto { next_request_id = n }) pac.channel_id (from_double req_id) connect_answer
          ps end (renumbered proto n a) in
      (
        p',
        default_on_packet_invoke_read true (recording table) now to_double from_double proto pac
              connect_name req_id args packed connect_distinct (omega arith) hr h
            ∙ ap
                (λ q.
                  answer_call true (recording table) now to_double from_double q pac
                    (string connect_name) (from_double req_id) args)
                t
            ∙ answered_by (record proto { next_request_id = n }) p' pac (from_double req_id) args e,
        w,
      )
