-- ===== src/Packet/Delivery.antt =====
-- From `rtmp_packet_write_packet` to `rtmp_packet_get_packet`: a packet that one connection sends,
-- another one receives.
use rushkit.Base.{
  ◌*◌, ◌<◌, ◌≤◌, ◌≡◌, refl, sym, ◌∙◌, Bool, true, List, [], append-nil, Bytes, length,
}
use rushkit.Base.Outcome.{ok}
use rushkit.Buffer.WriteBuffer.{WriteBuffer}
use rushkit.Buffer.ReadBuffer.{ReadBuffer}
use rushkit.Buffer.ReadBuffer.Laws.{remaining}
use rushkit.Buffer.RoundTrip.{reader, reader_lem}
use rushkit.Session.{Channel, Packet, Proto, at, rtmp_proto_get_channel}
use rushkit.Packet.Wire.{Pieces, new_packet}
use rushkit.Packet.Send.{rtmp_packet_write_packet}
use rushkit.Packet.Send.Headers.{Fits}
use rushkit.Packet.Send.NewPacket.{sized, IsSendable, rtmp_packet_write_packet_new}
use rushkit.Packet.Receive.{rtmp_packet_get_packet}
use rushkit.Packet.Receive.Steps.{at_header}
use rushkit.Packet.Receive.Fields.{swap_bytes}
use rushkit.Packet.Receive.NewPacket.{rtmp_packet_get_packet-new_packet}

-- What a receiver is told of a packet, on a channel that was `old` before.
abbrev pub delivered : Proto → Packet → Channel → Packet
delivered sender pac old = record {
  channel_id = sender.channel_id;
  channel = record old {
    timer = pac.channel.timer;
    size = length pac.payload;
    data_type = pac.channel.data_type;
    stream_id = swap_bytes pac.channel.stream_id;
  };
  payload = pac.payload;
}

-- A packet that a little-endian sender writes on a channel not yet in use is received whole by a
-- connection on any machine that is between packets, that reads chunks of the sender's size, and
-- whose channel of the sender's number is in use: same payload, time, size and type, the channel's
-- number is the sender's own and not the packet's, and the stream's number has its bytes in the
-- opposite order; nothing is left to read. The sender's number is from 2 to 63, the time is below
-- 0xffffff, a chunk has a byte at least, the type is from 1 to 255, the stream's number is below 2 ^ 32, the payload has from 1
-- to 32767 bytes and falls into the given pieces, and the buffer is valid and stays below 2 ^ 29
-- bytes.
pub rtmp_packet_get_packet-rtmp_packet_write_packet :
    (small : Bool) (sender receiver : Proto) (b : WriteBuffer) (pac : Packet) (rel : Bool)
    (unused old : Channel) (ps : List Bytes) (last : Bytes)
    → 2 ≤ sender.channel_id
    → sender.channel_id < 64
    → 0 < sender.write_chunk_size
    → receiver.read_chunk_size ≡ sender.write_chunk_size
    → at sender.channels_out pac.channel_id ≡ ok unused
    → unused.used ≡ 0
    → receiver.state ≡ 0
    → rtmp_proto_get_channel (at_header receiver sender.channel_id) ≡ ok old
    → IsSendable pac
    → pac.channel.timer < 0xffffff
    → 0 < pac.channel.data_type
    → length pac.payload < 32 * 1024
    → Pieces sender.write_chunk_size pac.payload ps last
    → Fits b (length (new_packet sender.channel_id (sized pac) ps last))
    → (sender' receiver' : Proto) × (b' : WriteBuffer) × (r : ReadBuffer)
      × (rtmp_packet_write_packet true sender b pac rel ≡ ok (length b'.written, sender', b'))
      × (rtmp_packet_get_packet small receiver (reader b b')
          ≡ ok (delivered sender pac old, receiver', r))
      × (remaining r ≡ [])
rtmp_packet_get_packet-rtmp_packet_write_packet small sender receiver b pac rel unused old ps last
      lo hi hc same at_out free idle known s ht typed hs p f =
    let (b', sent, w) =
      rtmp_packet_write_packet_new sender b pac rel unused ps last lo hi hc at_out free s p f in
    let (v, r) = reader_lem b b' (new_packet sender.channel_id (sized pac) ps last) w.bytes in
    let p' : Pieces receiver.read_chunk_size pac.payload ps last = rw same p in
    let (receiver', rb, got, kept, keeps, l) =
      rtmp_packet_get_packet-new_packet small receiver (reader b b') sender.channel_id (sized pac)
        old ps last [] idle lo hi known ht typed hs pac.payload refl p'
        (v, r ∙ sym (append-nil _), refl) in
    (_, receiver', b', rb, sent, got, l.1)
