-- ===== src/Protocol/Conversation.antt =====
-- core/src/packet.c and core/src/protocol.c: packets that are sent one after the other on a channel in
-- use, with shortened headers, and fed at once.
pub mod Sending
pub mod Receiving
pub mod Delivered
use rushkit.Base.{ℕ, ◌+◌, ◌*◌, ◌^◌, ◌<◌, ◌≡◌, true, false, List, [], ◌∷◌, ◌++◌, Bytes, length}
use rushkit.Base.Outcome.{Outcome, ok, ◌>>=◌}
use rushkit.Buffer.WriteBuffer.{WriteBuffer}
use rushkit.Session.{Channel, Packet, Proto}
use rushkit.Packet.Wire.{Pieces, packet_on}
use rushkit.Packet.Send.{mask_for, rtmp_packet_write_packet}
use rushkit.Packet.Send.NewPacket.{sized, IsSendable}
use rushkit.Packet.InStep.{KeepsStream}

-- A packet, and the chunks of its payload.
pub record Cut : Type 0 where
  pub packet : Packet
  pub pieces : List Bytes
  pub end : Bytes

-- What both ends have of a packet.
abbrev pub after : Channel → Cut → Channel
after last i = record (sized i.packet) { used = last.used }

-- A packet that follows `last` on the channel `cid`.
pub record IsNext (chunk cid : ℕ) (last : Channel) (i : Cut) : Type 0 where
  pub sendable : IsSendable i.packet
  pub placed : i.packet.channel_id ≡ cid
  pub timer_fits : i.packet.channel.timer < 0xffffff
  pub typed : 0 < i.packet.channel.data_type
  pub size_fits : length i.packet.payload < 32 * 1024
  pub cut : Pieces chunk i.packet.payload i.pieces i.end
  pub stream : KeepsStream last (sized i.packet)

-- Packets of which each follows the one before.
unfoldable pub Follow : ℕ → ℕ → Channel → List Cut → Type 0
Follow chunk cid last [] = Unit
Follow chunk cid last (i ∷ is) = IsNext chunk cid last i × Follow chunk cid (after last i) is

-- Their bytes.
unfoldable pub stream_on : ℕ → Channel → List Cut → Bytes
stream_on id last [] = []
stream_on id last (i ∷ is) =
    packet_on (mask_for last (sized i.packet)) id i.packet.channel.timer (sized i.packet) i.pieces
      i.end
    ++ stream_on id (after last i) is

-- A host that sends them.
unfoldable pub send_all : Proto → WriteBuffer → List Cut → Outcome (Proto × WriteBuffer)
send_all p b [] = ok (p, b)
send_all p b (i ∷ is) = do
  (_, p', b') ← rtmp_packet_write_packet true p b i.packet false
  send_all p' b' is
