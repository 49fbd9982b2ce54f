-- ===== src/Protocol/Conversation/Delivered.antt =====
-- Packets from a host that sends them to a host that is fed with what was sent.
use mathlib.Core.List.{map}
use rushkit.Base.{ℕ, ◌*◌, ◌^◌, ◌<◌, ◌≡◌, ◌++◌, ◌∙◌, Bool, refl, List, Bytes, length, sym}
use mathlib.Core.Path.{subst}
use rushkit.Base.Outcome.{ok}
use rushkit.Buffer.WriteBuffer.{WriteBuffer, rtmp_wb_init}
use rushkit.Session.{Channel, Proto, wrote}
use rushkit.Packet.InStep.{InStep}
use rushkit.Protocol.{MethodTable}
use rushkit.Protocol.Feed.{rtmp_proto_feed}
use rushkit.Protocol.InOrder.{noting}
use rushkit.Protocol.Reply.{CanSend, wb_init-Fits}
use rushkit.Protocol.Conversation.{Cut, Follow, stream_on, send_all}
use rushkit.Protocol.Conversation.Sending.{sent_all}
use rushkit.Protocol.Conversation.Receiving.{Hears, fed_all}

-- Any number of packets that a little-endian host sends one after the other into a new buffer, on a
-- channel in use and each with the header that is shortened against the one before, are all written;
-- and a connection on any machine that is fed these bytes at once returns and has handed each packet to
-- its host, in their order and each with its payload. The sender, whose pool is valid, handles a packet
-- whose number, from 2 to 63, is in use at the receiver too; both ends agree on the channel, whose last
-- packet had less than 32 KiB, and on the size of the chunks, of one byte at least; the receiver is
-- behind the handshake and between packets, and its host notes the payloads that it gets. Each packet
-- has a time below 0xffffff, a type from 1 to 255, a stream's number below 2 ^ 32, from 1 to 32767
-- bytes, which fall into the given pieces, and the stream of the one before if it is like it in type
-- and size. There are less than 2 ^ 29 bytes, and times are
-- sent as they are, not relative to the last one.
pub rtmp_proto_feed-send_all :
    (small : Bool) (table : MethodTable) (now : ℕ) (to_double from_double : ℕ → ℕ)
    (alloc : ℕ → Bytes) (sender receiver : Proto) (cid : ℕ) (old : Channel) (is : List Cut)
    (memory : Bytes) (can : CanSend sender cid)
    → Hears sender.write_chunk_size sender.channel_id old receiver
    → InStep can.last old
    → can.last.size < 32 * 1024
    → Follow sender.write_chunk_size cid can.last is
    → length (stream_on sender.channel_id can.last is) < 2 ^ 29
    → (sender' receiver' : Proto) × (b' : WriteBuffer) × (send_all sender
          (rtmp_wb_init sender.pool 1024)
          is
        ≡ ok (sender', b'))
      × (rtmp_proto_feed small
            (noting table)
            now
            to_double
            from_double
            alloc
            (record receiver { read_buffer = b'.written ++ memory })
            (length b'.written)
          ≡ ok receiver')
      × (receiver'.events ≡ receiver.events ++ map (λ i. wrote i.packet.payload) is)
rtmp_proto_feed-send_all small table now to_double from_double alloc sender receiver cid old is
      memory can r step small_before f fits =
    let (sender', b', sent, w) =
      sent_all is sender (rtmp_wb_init sender.pool 1024) cid can.last can.lo can.hi can.chunk
        can.known can.used f (wb_init-Fits sender _ can.pool_valid fits) in
    let (receiver', run, told) =
      fed_all small table now to_double from_double alloc sender.write_chunk_size cid
        sender.channel_id can.lo can.hi is receiver can.last old memory r step small_before f in
    let whole : b'.written ≡ stream_on sender.channel_id can.last is =
      w.bytes ∙ (unfold rtmp_wb_init in refl) in
    (
      sender',
      receiver',
      b',
      sent,
      subst
          (λ u.
            rtmp_proto_feed small (noting table) now to_double from_double alloc
              (record receiver { read_buffer = u ++ memory }) (length u)
            ≡ ok receiver')
          (sym whole) run,
      told,
    )
