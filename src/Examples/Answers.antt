-- ===== src/Examples/Answers.antt =====
-- core/src/protocol.c: "connect", called on a concrete connection.
use rushkit.Base.{◌≡◌, refl, true, none, [], ◌∷◌, arith, length, lengths, List, All, ◌<◌, ◌^◌}
use rushkit.Base.Outcome.{ok}
use rushkit.Amf.Valid.{IsValid}
use rushkit.Amf.{Value, number, string, plain, amf_nil}
use rushkit.Amf.Encode.{pack_values}
use rushkit.Amf.Encode.Size.{byte_count, byte_count_lem, amf_pack_call_lem}
use rushkit.Session.{Packet, Proto, wrote, set, zero_channel}
use rushkit.Packet.Wire.{header_fields, join, packet_on}
use rushkit.Packet.Send.{mask_for}
use rushkit.Protocol.{rtmp_proto_method_table_init}
use rushkit.Protocol.Send.{result_name, rtmp_proto_packet_return}
use rushkit.Protocol.Handlers.{connect_name, default_on_packet_invoke}
use rushkit.Protocol.Handshake.{recording}
use rushkit.Protocol.Reply.{
  CanSend, CanAnswer, answer_values, answer_packet, packet_bytes,
  rtmp_proto_packet_return-packet_on,
}
use rushkit.Protocol.Connect.{connect_answer, default_on_packet_invoke-connect_answer}
use rushkit.Examples.Memory.{pool-IsValid}
use rushkit.Examples.Packets.{proto}

abbrev called : Proto
called = record proto {
  write_chunk_size = 128;
  channels_out = set proto.channels_out 3 (record zero_channel { used = 1 });
}

called-CanSend : CanSend called 3
called-CanSend = record {
  lo = omega arith;
  hi = omega arith;
  chunk = omega arith;
  last = record zero_channel { used = 1 };
  known = refl;
  used = λ e. omega (arith, e);
  pool_valid = pool-IsValid;
}

answer_size : length (pack_values true (answer_values 1 connect_answer)) ≡ 115
unfolding pack_values byte_count
answer_size = omega (
  lengths,
  byte_count_lem true (string result_name),
  byte_count_lem true (number 1),
  byte_count_lem true (plain amf_nil),
  byte_count_lem true connect_answer,
)

called-CanAnswer :
    CanAnswer called 3 9 1 connect_answer [] (pack_values true (answer_values 1 connect_answer))
unfolding called-CanSend packet_on header_fields join mask_for
called-CanAnswer = record {
  can = called-CanSend;
  cid_fits = omega arith;
  timer = 0;
  timed = refl;
  cut = record {
    whole = refl;
    full = tt;
    some_last = omega (arith, answer_size);
    last_fits = omega (arith, answer_size);
  };
  short = omega (lengths, answer_size);
}

rtmp_proto_packet_return-packet_on_example :
    (p' : Proto) × (rtmp_proto_packet_return true
        (recording rtmp_proto_method_table_init)
        (λ n. n)
        9
        called
        none
        3
        1
        connect_answer
      ≡ ok (none, p'))
    × (p'.events
        ≡ wrote (
            packet_bytes called called-CanSend.last
              (answer_packet 3 9 1 connect_answer)
              []
              (pack_values true (answer_values 1 connect_answer)))
          ∷ [])
unfolding called-CanAnswer
rtmp_proto_packet_return-packet_on_example =
    rtmp_proto_packet_return-packet_on rtmp_proto_method_table_init (λ n. n) 9 called 3 1
      connect_answer [] (pack_values true (answer_values 1 connect_answer)) called-CanAnswer

-- "connect" as a client packs it, with one argument.
abbrev connect_args : List Value
connect_args = string (97 ∷ []) ∷ []

connect_args-IsValid : All IsValid connect_args
unfolding IsValid
connect_args-IsValid = ground arith

abbrev connect : Packet
connect = record {
  channel_id = 3;
  channel = zero_channel;
  payload = pack_values true (string connect_name ∷ number 1 ∷ plain amf_nil ∷ connect_args);
}

connect_short :
    length (pack_values true (string connect_name ∷ number 1 ∷ plain amf_nil ∷ connect_args))
    < 2 ^ 31
unfolding pack_values byte_count
connect_short = omega (
  lengths,
  byte_count_lem true (string connect_name),
  byte_count_lem true (number 1),
  byte_count_lem true (plain amf_nil),
  byte_count_lem true (string (97 ∷ [])),
)

default_on_packet_invoke-connect_answer_example :
    (p' : Proto) × (default_on_packet_invoke true
        (recording rtmp_proto_method_table_init)
        9
        (λ n. n)
        (λ n. n)
        called
        connect
      ≡ ok p')
    × (p'.events
        ≡ wrote (
            packet_bytes called called-CanSend.last
              (answer_packet 3 9 1 connect_answer)
              []
              (pack_values true (answer_values 1 connect_answer)))
          ∷ [])
unfolding called-CanAnswer
default_on_packet_invoke-connect_answer_example =
    default_on_packet_invoke-connect_answer rtmp_proto_method_table_init 9 (λ n. n) (λ n. n) called
      connect 1 connect_args [] (pack_values true (answer_values 1 connect_answer))
      (amf_pack_call_lem true connect_name 1 connect_args connect_short) (omega arith)
      connect_args-IsValid called-CanAnswer
