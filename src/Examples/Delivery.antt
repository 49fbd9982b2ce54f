-- ===== src/Examples/Delivery.antt =====
-- core/src/packet.c: a packet between two concrete connections.
use rushkit.Base.{◌≡◌, refl, true, false, [], ◌∷◌, arith, length}
use rushkit.Base.Outcome.{ok, abort, out_of_fuel}
use rushkit.Buffer.WriteBuffer.{WriteBuffer}
use rushkit.Buffer.ReadBuffer.{ReadBuffer}
use rushkit.Buffer.ReadBuffer.Laws.{IsValid, remaining}
use rushkit.Buffer.RoundTrip.{reader}
use rushkit.Session.{Proto, set, zero_channel, rtmp_proto_get_channel, rtmp_packet_reset}
use rushkit.Packet.Send.{rtmp_packet_write_packet}
use rushkit.Packet.Receive.{get_packet_loop, rtmp_packet_get_packet}
use rushkit.Packet.Receive.Steps.{at_header, header_size, incomplete_header-RunsOn}
use rushkit.Packet.Receive.LongIds.{rtmp_packet_get_packet_long_id}
use rushkit.Packet.Delivery.{delivered, rtmp_packet_get_packet-rtmp_packet_write_packet}
use rushkit.Examples.Memory.{output}
use rushkit.Examples.Packets.{proto, ping, ping-IsSendable, ping-Pieces, ping-Fits}

-- A connection between packets, with the channel 3 in use and chunks of two bytes.
abbrev pub receiver : Proto
receiver = record proto {
  read_chunk_size = 2;
  channel_id = 0;
  channels_in = set proto.channels_in 3 (record zero_channel { used = 1 });
}

receiver_known :
    rtmp_proto_get_channel (at_header receiver 3) ≡ ok (record zero_channel { used = 1 })
unfolding rtmp_proto_get_channel rtmp_packet_reset
receiver_known = refl

rtmp_packet_get_packet-rtmp_packet_write_packet_example :
    (sender' receiver' : Proto) × (b' : WriteBuffer) × (r : ReadBuffer) × (rtmp_packet_write_packet
        true proto output ping false
      ≡ ok (length b'.written, sender', b'))
    × (rtmp_packet_get_packet false receiver (reader output b')
        ≡ ok (delivered proto ping (record zero_channel { used = 1 }), receiver', r))
    × (remaining r ≡ [])
rtmp_packet_get_packet-rtmp_packet_write_packet_example =
    rtmp_packet_get_packet-rtmp_packet_write_packet false proto receiver output ping false
      zero_channel (record zero_channel { used = 1 }) ((10 ∷ 20 ∷ []) ∷ []) (30 ∷ []) (omega arith)
      (omega arith) (omega arith) refl refl refl refl receiver_known ping-IsSendable (omega arith)
      (omega arith) (omega arith) ping-Pieces ping-Fits

-- The same packet in a buffer, with a byte behind it.
abbrev stream : ReadBuffer
stream = record {
  buf = 3 ∷ 0 ∷ 0 ∷ 7 ∷ 0 ∷ 0 ∷ 3 ∷ 4 ∷ 1 ∷ 0 ∷ 0 ∷ 0 ∷ 10 ∷ 20 ∷ 195 ∷ 30 ∷ 99 ∷ [];
  current = 0;
  len = 17;
  need_more = 0;
}

-- The first five bytes of the packet.
abbrev head : ReadBuffer
head = record { buf = 3 ∷ 0 ∷ 0 ∷ 7 ∷ 0 ∷ []; current = 0; len = 5; need_more = 0 }

head-IsValid : IsValid head
head-IsValid = record { behind = omega arith; inside = omega arith }

incomplete_header-RunsOn_example : get_packet_loop 1000 false receiver head ≡ out_of_fuel
incomplete_header-RunsOn_example =
    incomplete_header-RunsOn false receiver head 3 (0 ∷ 0 ∷ 7 ∷ 0 ∷ [])
      (record zero_channel { used = 1 }) 1000 refl head-IsValid refl (omega arith) receiver_known
      (unfold header_size in omega arith)

-- A packet whose channel's number, 69, takes a byte of its own.
abbrev long_id : ReadBuffer
long_id = record { buf = 0 ∷ 5 ∷ 0 ∷ []; current = 0; len = 3; need_more = 0 }

long_id-IsValid : IsValid long_id
long_id-IsValid = record { behind = omega arith; inside = omega arith }

rtmp_packet_get_packet_long_id_example : rtmp_packet_get_packet true receiver long_id ≡ abort
rtmp_packet_get_packet_long_id_example =
    rtmp_packet_get_packet_long_id true receiver long_id 0 5 (0 ∷ []) refl long_id-IsValid refl refl
      (omega arith)
