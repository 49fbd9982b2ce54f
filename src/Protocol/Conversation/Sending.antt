-- ===== src/Protocol/Conversation/Sending.antt =====
-- What a host sends that sends several packets into one buffer.
use rushkit.Base.{
  ℕ, ◌<◌, ◌≤◌, ◌≡◌, ◌≢◌, refl, sym, false, List, [], ◌∷◌, append-nil, arith, length, length-append,
}
use rushkit.Base.Outcome.{ok}
use rushkit.Buffer.WriteBuffer.{WriteBuffer}
use rushkit.Session.{Channel, Proto, at, set}
use rushkit.Packet.Wire.{packet_on}
use rushkit.Packet.Send.{mask_for}
use rushkit.Packet.Send.Headers.{Fits, Wrote, Wrote-trans, Fits-Wrote}
use rushkit.Packet.Send.NewPacket.{sized}
use rushkit.Packet.Send.Masks.{channel_kept, rtmp_packet_write_packet_used}
use rushkit.Packet.Receive.Fields.{at-set}
use rushkit.Packet.InStep.{mask_for-Covers, channel_kept-sent}
use rushkit.Protocol.Conversation.{Cut, after, Follow, stream_on, send_all}

at_after :
    (cs : List Channel) (i j : ℕ) (old c c' : Channel)
    → i ≡ j
    → at cs j ≡ ok old
    → c ≡ c'
    → at (set cs i c) j ≡ ok c'
at_after cs i j old c c' h e h' = rw h (rw h' (at-set cs j old c' e))

pub sent_all :
    (is : List Cut) (p : Proto) (b : WriteBuffer) (cid : ℕ) (last : Channel)
    → 2 ≤ p.channel_id
    → p.channel_id < 64
    → 0 < p.write_chunk_size
    → at p.channels_out cid ≡ ok last
    → last.used ≢ 0
    → Follow p.write_chunk_size cid last is
    → Fits b (length (stream_on p.channel_id last is))
    → (p' : Proto) × (b' : WriteBuffer) × (send_all p b is ≡ ok (p', b'))
      × Wrote b (stream_on p.channel_id last is) b'
unfolding Follow stream_on send_all
sent_all [] p b cid last lo hi hc known used f fits =
    (p, b, refl, record { bytes = sym (append-nil b.written); valid = fits.0 })
sent_all (i ∷ is) p b cid last lo hi hc known used (n, f) fits =
    let c = sized i.packet in
    let m = mask_for last c in
    let head = packet_on m p.channel_id i.packet.channel.timer c i.pieces i.end in
    let tail = stream_on p.channel_id (after last i) is in
    let (b₁, e, w) =
      rtmp_packet_write_packet_used p b i.packet false last i.pieces i.end lo hi hc
        (rw n.placed known) used n.sendable n.cut
        (fits.0, omega (arith, fits, length-append {0} head tail)) in
    let (p', b', e', w') =
      sent_all is
        (record p { channels_out = set p.channels_out i.packet.channel_id (channel_kept m last c) })
        b₁ cid (after last i) lo hi hc
        (at_after p.channels_out i.packet.channel_id cid last (channel_kept m last c) (after last i)
          n.placed known (channel_kept-sent last c m (mask_for-Covers last c n.stream)))
        used f
        (Fits-Wrote head (length tail) w
          (fits.0, omega (arith, fits, length-append {0} head tail))) in
    (p', b', rw e e', Wrote-trans {b'' = b'} head tail w w')
