-- ===== src/Examples/Shortened.antt =====
-- core/src/packet.c: a second packet on a channel, with a header of four bytes.
use rushkit.Base.{List, ◌<◌, ◌^◌, ◌≡◌, refl, true, false, [], ◌∷◌, ◌++◌, arith, length}
use rushkit.Base.Outcome.{ok}
use rushkit.Word.{from_little_endian}
use rushkit.Word.Wire.{big_endian}
use rushkit.Buffer.WriteBuffer.{WriteBuffer, rtmp_wb_init}
use rushkit.Buffer.ReadBuffer.{ReadBuffer}
use rushkit.Buffer.ReadBuffer.Laws.{remaining}
use rushkit.Buffer.RoundTrip.{reader}
use rushkit.Session.{wrote, Channel, Proto, set, rtmp_proto_get_channel, rtmp_packet_reset}
use rushkit.Packet.Wire.{join, header_fields, packet_on}
use rushkit.Packet.Send.{mask_for, rtmp_packet_write_packet}
use rushkit.Packet.Send.Headers.{Fits}
use rushkit.Packet.Send.NewPacket.{sized}
use rushkit.Packet.Receive.{get_packet_loop, rtmp_packet_get_packet}
use rushkit.Packet.Receive.Steps.{at_header}
use rushkit.Packet.Receive.Rounds.{rtmp_packet_get_packet-get_packet_loop}
use rushkit.Packet.Delivery.{delivered}
use rushkit.Packet.InStep.{InStep, delivered-InStep}
use rushkit.Protocol.{rtmp_proto_method_table_init}
use rushkit.Protocol.Feed.{rtmp_proto_feed}
use rushkit.Protocol.InOrder.{noting}
use rushkit.Protocol.Reply.{CanSend}
use rushkit.Protocol.Conversation.{Cut, Follow, stream_on, send_all}
use rushkit.Protocol.Conversation.Receiving.{Hears}
use rushkit.Protocol.Conversation.Delivered.{rtmp_proto_feed-send_all}
use rushkit.Examples.Memory.{pool-IsValid, output, output-IsValid}
use rushkit.Examples.Packets.{proto, ping, ping-IsSendable, ping-Pieces}
use rushkit.Examples.Delivery.{receiver}

-- What the sender keeps of an earlier packet of three bytes, and what the receiver has of it.
abbrev last : Channel
last = record { used = 1; timer = 5; size = 3; data_type = 4; stream_id = 1 }

abbrev old : Channel
old = record { used = 1; timer = 5; size = 3; data_type = 4; stream_id = 2 ^ 24 }

abbrev sender : Proto
sender = record proto { channels_out = set proto.channels_out 5 last }

abbrev reading : Proto
reading = record receiver { channels_in = set receiver.channels_in 3 old }

reading_known : rtmp_proto_get_channel (at_header reading 3) ≡ ok old
unfolding rtmp_proto_get_channel rtmp_packet_reset
reading_known = refl

in_step : InStep last old
unfolding from_little_endian big_endian
in_step = record { same_timer = refl; same_size = refl; same_type = refl; same_stream = refl }

ping-Fits : Fits output (
    length
      (packet_on (mask_for last (sized ping)) 3 7 (sized ping) ((10 ∷ 20 ∷ []) ∷ []) (30 ∷ [])))
unfolding packet_on header_fields join mask_for
ping-Fits = (output-IsValid, omega arith)

delivered-InStep_example :
    (sender' receiver' : Proto) × (b' : WriteBuffer) × (r : ReadBuffer) × (kept read : Channel)
    × (rtmp_packet_write_packet true sender output ping false ≡ ok (length b'.written, sender', b'))
    × (rtmp_packet_get_packet false reading (reader output b')
        ≡ ok (delivered sender ping old, receiver', r))
    × (remaining r ≡ [])
    × (sender'.channels_out ≡ set sender.channels_out 5 kept)
    × (receiver'.channels_in ≡ set reading.channels_in 3 read)
    × InStep kept read
delivered-InStep_example =
    delivered-InStep false sender reading output ping last old ((10 ∷ 20 ∷ []) ∷ []) (30 ∷ [])
      (omega arith) (omega arith) (omega arith) refl refl (omega arith) refl reading_known in_step
      (λ _ _. refl) (omega arith) ping-IsSendable (omega arith) (omega arith) (omega arith)
      ping-Pieces ping-Fits

-- A packet of one byte on the channel, with its time only, and a byte behind it.
abbrev stream : ReadBuffer
stream = record {
  buf = 131 ∷ 0 ∷ 0 ∷ 9 ∷ 10 ∷ 20 ∷ 195 ∷ 30 ∷ 99 ∷ [];
  current = 0;
  len = 9;
  need_more = 0;
}

rtmp_packet_get_packet-get_packet_loop_example :
    get_packet_loop 100 true reading stream ≡ rtmp_packet_get_packet true reading stream
rtmp_packet_get_packet-get_packet_loop_example =
    rtmp_packet_get_packet-get_packet_loop true reading stream 100 (omega arith)

-- Two packets for the same channel and stream, the second with another time.
abbrev pings : List Cut
pings =
    record { packet = ping; pieces = (10 ∷ 20 ∷ []) ∷ []; end = 30 ∷ [] }
    ∷ record {
      packet = record ping { channel = record (ping.channel) { timer = 9 } };
      pieces = (10 ∷ 20 ∷ []) ∷ [];
      end = 30 ∷ [];
    }
    ∷ []

pings-Follow : Follow 2 5 last pings
unfolding Follow
pings-Follow = (
  record {
    sendable = ping-IsSendable;
    placed = refl;
    timer_fits = omega arith;
    typed = omega arith;
    size_fits = omega arith;
    cut = ping-Pieces;
    stream = λ _ _. refl;
  },
  (
    record {
      sendable = record {
        timer_fits = omega arith;
        type_fits = omega arith;
        stream_fits = omega arith;
      };
      placed = refl;
      timer_fits = omega arith;
      typed = omega arith;
      size_fits = omega arith;
      cut = ping-Pieces;
      stream = λ _ _. refl;
    },
    tt,
  ),
)

sender-CanSend : CanSend sender 5
sender-CanSend = record {
  lo = omega arith;
  hi = omega arith;
  chunk = omega arith;
  last = last;
  known = refl;
  used = λ e. omega (arith, e);
  pool_valid = pool-IsValid;
}

-- The receiver, behind the handshake.
abbrev listening : Proto
listening = record reading { pkg_st = 3 }

listening-Hears : Hears 2 3 old listening
unfolding rtmp_proto_get_channel rtmp_packet_reset
listening-Hears = record { shaken = refl; between = refl; chunks = refl; known = refl }

pings_short : length (stream_on 3 last pings) < 2 ^ 29
unfolding stream_on packet_on header_fields join mask_for
pings_short = omega arith

rtmp_proto_feed-send_all_example :
    (sender' receiver' : Proto) × (b' : WriteBuffer) × (send_all sender
        (rtmp_wb_init sender.pool 1024)
        pings
      ≡ ok (sender', b'))
    × (rtmp_proto_feed false
          (noting rtmp_proto_method_table_init)
          0
          (λ n. n)
          (λ n. n)
          (λ _. [])
          (record listening { read_buffer = b'.written ++ [] })
          (length b'.written)
        ≡ ok receiver')
    × (receiver'.events ≡ wrote (10 ∷ 20 ∷ 30 ∷ []) ∷ wrote (10 ∷ 20 ∷ 30 ∷ []) ∷ [])
unfolding sender-CanSend
rtmp_proto_feed-send_all_example =
    rtmp_proto_feed-send_all false rtmp_proto_method_table_init 0 (λ n. n) (λ n. n) (λ _. []) sender
      listening 5 old pings [] sender-CanSend listening-Hears in_step (omega arith) pings-Follow
      pings_short
