-- ===== src/Examples/Packets.antt =====
-- core/src/packet.c on a concrete connection.
use rushkit.Base.{◌≡◌, refl, true, false, [], ◌∷◌, arith, length}
use rushkit.Base.Outcome.{ok, abort}
use rushkit.Buffer.FixBuffer.{rtmp_fwb_init}
use rushkit.Word.{little_endian}
use rushkit.Buffer.WriteBuffer.{WriteBuffer}
use rushkit.Session.{live, Channel, Packet, Proto, set, replicate, zero_channel, rtmp_packet_reset}
use rushkit.Packet.Wire.{join, Pieces, new_packet}
use rushkit.Packet.Send.{rtmp_packet_write_packet}
use rushkit.Packet.Send.Headers.{
  Fits, Wrote, rtmp_packet_write_packet-rtmp_packet_reset, rtmp_packet_write_packet_loses_stream,
}
use rushkit.Packet.Send.NewPacket.{sized, IsSendable, rtmp_packet_write_packet_new}
use rushkit.Examples.Memory.{pool, output, output-IsValid}

-- A connection that is about to answer on channel 3, with chunks of two bytes.
abbrev pub proto : Proto
proto = record {
  tmp_buf = rtmp_fwb_init;
  pool = pool;
  ack_back_len = 0;
  pkg_st = 2;
  user_data = 0;
  last_data_length = 0;
  last_data = [];
  read_buffer = [];
  read_chunk_size = 128;
  write_chunk_size = 2;
  state = 0;
  packet_mask = 0;
  channel_id = 3;
  channels_in = replicate 64 zero_channel;
  channels_out = replicate 64 zero_channel;
  data_buffer = rtmp_fwb_init;
  last_timers = replicate 64 0;
  num_up_bytes = 0;
  num_down_bytes = 0;
  next_request_id = 1;
  events = [];
  memory = record {
    last_data_block = live;
    read_buffer_block = live;
    channels_in_block = live;
    channels_out_block = live;
  };
}

abbrev pub ping : Packet
ping = record {
  channel_id = 5;
  channel = record { used = 0; timer = 7; size = 0; data_type = 4; stream_id = 1 };
  payload = 10 ∷ 20 ∷ 30 ∷ [];
}

pub ping-IsSendable : IsSendable ping
ping-IsSendable = record {
  timer_fits = omega arith;
  type_fits = omega arith;
  stream_fits = omega arith;
}

pub ping-Pieces : Pieces 2 (ping.payload) ((10 ∷ 20 ∷ []) ∷ []) (30 ∷ [])
ping-Pieces = record {
  whole = refl;
  full = (refl, tt);
  some_last = omega arith;
  last_fits = omega arith;
}

pub ping-Fits : Fits output (length (new_packet 3 (sized ping) ((10 ∷ 20 ∷ []) ∷ []) (30 ∷ [])))
unfolding new_packet join little_endian
ping-Fits = (output-IsValid, omega arith)

rtmp_packet_write_packet_new_example :
    (b' : WriteBuffer) × (rtmp_packet_write_packet true proto output ping false
      ≡ ok (
        length b'.written,
        record proto { channels_out = set proto.channels_out 5 (record (sized ping) { used = 1 }) },
        b',
      ))
    × Wrote output (new_packet 3 (sized ping) ((10 ∷ 20 ∷ []) ∷ []) (30 ∷ [])) b'
rtmp_packet_write_packet_new_example =
    rtmp_packet_write_packet_new proto output ping false zero_channel ((10 ∷ 20 ∷ []) ∷ [])
      (30 ∷ []) (omega arith) (omega arith) (omega arith) refl refl ping-IsSendable ping-Pieces
      ping-Fits

rtmp_packet_write_packet-rtmp_packet_reset_example :
    rtmp_packet_write_packet true (rtmp_packet_reset proto) output ping false ≡ abort
rtmp_packet_write_packet-rtmp_packet_reset_example =
    rtmp_packet_write_packet-rtmp_packet_reset true proto output ping false zero_channel refl

-- A channel that carried the stream 1, and a packet of the same type and size for the stream 2.
abbrev sent : Channel
sent = record { used = 1; timer = 7; size = 3; data_type = 4; stream_id = 1 }

abbrev reused : Proto
reused = record proto { channels_out = set proto.channels_out 5 sent }

abbrev other_ping : Packet
other_ping = record ping { channel = record (ping.channel) { timer = 8; stream_id = 2 } }

rtmp_packet_write_packet_loses_stream_example :
    rtmp_packet_write_packet true reused output other_ping false
    ≡ rtmp_packet_write_packet true reused output
        (record other_ping { channel = record (other_ping.channel) { stream_id = 9 } })
        false
rtmp_packet_write_packet_loses_stream_example =
    rtmp_packet_write_packet_loses_stream true reused output other_ping false sent 9 refl
      (omega arith) refl refl (omega arith) (omega arith)
