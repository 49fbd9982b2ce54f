-- ===== src/Examples/Connections.antt =====
-- core/src/protocol.c on a concrete connection.
use rushkit.Base.{false, List, ◌<◌, ◌^◌, lengths, length}
use rushkit.Amf.{Value, string, number, plain, amf_nil}
use rushkit.Amf.Valid.{IsValid}
use rushkit.Amf.Encode.{pack_values}
use rushkit.Amf.Encode.Size.{byte_count, byte_count_lem, amf_pack_call_lem}
use rushkit.Protocol.Handlers.{take_request_id, default_on_packet_invoke}
use rushkit.Protocol.Invoke.{default_on_packet_invoke-amf_pack_call}
use rushkit.Base.{
  append-nil, append_assoc, All, some, ℕ, zero, suc, ◌+◌, ◌<◌, ◌≡◌, refl, sym, ap, ◌∙◌, true, [],
  ◌∷◌, ◌++◌, arith, Bytes, length, lengths, take, take-append_length,
}
use rushkit.Base.Outcome.{Outcome, ok, abort}
use rushkit.Amf.{boolean}
use rushkit.Buffer.ReadBuffer.{ReadBuffer}
use rushkit.Buffer.ReadBuffer.Laws.{remaining}
use rushkit.Buffer.ReadBuffer.Laws as Laws
use rushkit.Buffer.FixBuffer.{rtmp_fwb_init}
use rushkit.Session.{Packet, Proto, replicate, zero_channel, rtmp_packet_reset}
use rushkit.Protocol.{MethodTable, rtmp_proto_method_table_init, shake_buffer, on_hand_shake}
use rushkit.Protocol.Send.{rtmp_proto_call}
use rushkit.Protocol.Feed.{buffer_sz, rtmp_proto_feed_data}
use rushkit.Protocol.Handshake.{
  recording, IsCollecting, LeftOver, kept, answered, on_hand_shake_lem,
}
use rushkit.Protocol.Greeting.{at_start}
use rushkit.Protocol.Gathering.Feeds.{
  together, feed_pieces, state_before, told_before, rtmp_proto_feed_in_pieces,
}
use rushkit.Protocol.Outside.{rtmp_proto_call-rtmp_packet_reset}
use rushkit.Protocol.Refed.{rtmp_proto_feed_data_agrees}
use rushkit.Examples.Packets.{proto}

-- The conversions of numbers and the memory that is handed out do not matter in these runs.
abbrev same : ℕ → ℕ
same n = n

abbrev zeros : ℕ → Bytes
zeros n = replicate n 0

abbrev table : MethodTable
table = rtmp_proto_method_table_init

-- A connection that has got the byte 3, and the first bytes of the client's block.
abbrev greeting : Proto
greeting = record proto { pkg_st = 1; tmp_buf = rtmp_fwb_init }

abbrev piece : ReadBuffer
piece = record { buf = 1 ∷ 2 ∷ 3 ∷ []; current = 0; len = 3; need_more = 0 }

piece-IsValid : Laws.IsValid piece
piece-IsValid = record { behind = omega arith; inside = omega arith }

greeting-IsCollecting : IsCollecting (shake_buffer greeting.tmp_buf)
unfolding shake_buffer rtmp_fwb_init
greeting-IsCollecting = (refl, omega arith, refl)

on_hand_shake_lem_example :
    (length (shake_buffer greeting.tmp_buf).stored + length (remaining piece) < 1536
      → (b' : ReadBuffer) × (on_hand_shake true (recording table) greeting piece
          ≡ ok (kept greeting (remaining piece), b'))
        × LeftOver piece b' [])
    × ((xs rest : Bytes)
        → remaining piece ≡ xs ++ rest
        → length (shake_buffer greeting.tmp_buf).stored + length xs ≡ 1536
        → (b' : ReadBuffer) × (on_hand_shake true (recording table) greeting piece
            ≡ ok (answered true greeting xs, b'))
          × LeftOver piece b' rest)
on_hand_shake_lem_example =
    on_hand_shake_lem true table greeting piece greeting-IsCollecting piece-IsValid

length-replicate : (n : ℕ) → length (zeros n) ≡ n
length-replicate zero = refl
length-replicate (suc n) = omega (arith, length-replicate n)

-- A handshake that comes in three pieces, up to the first byte of the second block.
abbrev shake_pieces : List Bytes
shake_pieces = (3 ∷ []) ∷ (1 ∷ 2 ∷ []) ∷ (zeros 1534 ++ (7 ∷ [])) ∷ []

shake_pieces-together :
    together shake_pieces ++ zeros 1535 ≡ 3 ∷ ((1 ∷ 2 ∷ zeros 1534) ++ (7 ∷ zeros 1535))
unfolding together
shake_pieces-together =
    ap (λ u. 3 ∷ 1 ∷ 2 ∷ u)
      (ap (λ u. u ++ zeros 1535) (append-nil (zeros 1534 ++ (7 ∷ [])))
        ∙ append_assoc (zeros 1534) (7 ∷ []) (zeros 1535))

rtmp_proto_feed_in_pieces_example :
    (p : Proto) × (feed_pieces true
        (recording table)
        0
        same
        same
        zeros
        (at_start proto [])
        shake_pieces
      ≡ ok p)
    × (p.pkg_st ≡ state_before (length (zeros 1535)))
    × (p.events ≡ told_before true proto.events (1 ∷ 2 ∷ zeros 1534) (length (zeros 1535)))
rtmp_proto_feed_in_pieces_example =
    rtmp_proto_feed_in_pieces true table 0 same same zeros proto [] (1 ∷ 2 ∷ zeros 1534)
      (7 ∷ zeros 1535) (zeros 1535) shake_pieces (omega (arith, length-replicate 1534))
      (omega (arith, length-replicate 1535)) shake_pieces-together

rtmp_proto_call-rtmp_packet_reset_example :
    rtmp_proto_call true table same 5 (rtmp_packet_reset proto) (112 ∷ []) (boolean 1 ∷ []) ≡ abort
rtmp_proto_call-rtmp_packet_reset_example =
    rtmp_proto_call-rtmp_packet_reset true table same 5 proto (112 ∷ []) (boolean 1 ∷ [])
      zero_channel 0 refl refl

first_bytes : (bs : Bytes) → take buffer_sz (zeros buffer_sz ++ bs) ≡ zeros buffer_sz
first_bytes bs =
    ap (λ k. take k (zeros buffer_sz ++ bs)) (sym (length-replicate buffer_sz))
    ∙ take-append_length (zeros buffer_sz) bs

rtmp_proto_feed_data_agrees_example :
    rtmp_proto_feed_data true table 0 same same zeros proto (zeros buffer_sz ++ (1 ∷ []))
    ≡ rtmp_proto_feed_data true table 0 same same zeros proto (zeros buffer_sz ++ (2 ∷ []))
rtmp_proto_feed_data_agrees_example =
    rtmp_proto_feed_data_agrees true table 0 same same zeros (zeros buffer_sz ++ (1 ∷ []))
      (zeros buffer_sz ++ (2 ∷ [])) (first_bytes (1 ∷ []) ∙ sym (first_bytes (2 ∷ []))) proto
      (omega lengths)

-- A host that takes every call.
abbrev on_call : Proto → ℕ → ℕ → Value → List Value → Outcome Proto
on_call p channel_id request_id method_name args = ok (record p { next_request_id = channel_id })

abbrev host : MethodTable
host = record table { on_amf_call = some on_call }

abbrev call_args : List Value
call_args = boolean 1 ∷ string (7 ∷ []) ∷ []

call_args-IsValid : All IsValid call_args
unfolding IsValid
call_args-IsValid = ground arith

abbrev call_packet : Packet
call_packet = record {
  channel_id = 3;
  channel = zero_channel;
  payload = pack_values true (string (112 ∷ []) ∷ number 1 ∷ plain amf_nil ∷ call_args);
}

call_short :
    length (pack_values true (string (112 ∷ []) ∷ number 1 ∷ plain amf_nil ∷ call_args)) < 2 ^ 31
unfolding pack_values byte_count
call_short = omega (
  lengths,
  byte_count_lem true (string (112 ∷ [])),
  byte_count_lem true (number 1),
  byte_count_lem true (plain amf_nil),
  byte_count_lem true (boolean 1),
  byte_count_lem true (string (7 ∷ [])),
)

default_on_packet_invoke-amf_pack_call_example :
    default_on_packet_invoke true host 0 same same proto call_packet
    ≡ on_call (take_request_id proto false 1) 3 1 (string (112 ∷ [])) call_args
default_on_packet_invoke-amf_pack_call_example =
    default_on_packet_invoke-amf_pack_call true host 0 same same proto call_packet (112 ∷ []) 1
      call_args on_call refl (amf_pack_call_lem true (112 ∷ []) 1 call_args call_short) (λ e. cc)
      (λ e. cc) (omega arith) (omega arith) call_args-IsValid
