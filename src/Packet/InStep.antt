-- ===== src/Packet/InStep.antt =====
-- Both ends of a channel: what the sender remembers of the last packet, and what the receiver does.
use rushkit.Base.{
  ℕ, ◌*◌, ◌≤◌, ◌<◌, ◌≡◌, ◌≢◌, inl, inr, refl, sym, ap, ◌∙◌, Bool, true, false, List, [], append-nil,
  arith, Bytes, length, ◌==◌, ==_iff, ◌&&◌, Bool-cases,
}
use mathlib.Core.Path.{subst}
use rushkit.Base.Outcome.{ok}
use rushkit.Buffer.WriteBuffer.{WriteBuffer}
use rushkit.Buffer.ReadBuffer.{ReadBuffer}
use rushkit.Buffer.ReadBuffer.Laws.{remaining}
use rushkit.Buffer.RoundTrip.{reader, reader_lem}
use rushkit.Session.{Channel, Packet, Proto, at, set, rtmp_proto_get_channel}
use rushkit.Packet.Wire.{Pieces, packet_on}
use rushkit.Packet.Send.{mask_for, rtmp_packet_write_packet}
use rushkit.Packet.Send.Headers.{Fits}
use rushkit.Packet.Send.NewPacket.{sized, IsSendable}
use rushkit.Packet.Send.Masks.{channel_kept, mask_for_bounded, rtmp_packet_write_packet_used}
use rushkit.Packet.Receive.{rtmp_packet_get_packet}
use rushkit.Packet.Receive.Steps.{at_header}
use rushkit.Packet.Receive.Fields.{swap_bytes}
use rushkit.Packet.Receive.Masks.{channel_read, rtmp_packet_get_packet-packet_on}
use rushkit.Packet.Delivery.{delivered}

-- The receiver's channel has the fields of the sender's, the stream's number with its bytes in the opposite order.
pub record InStep (last old : Channel) : Type 0 where
  pub same_timer : old.timer ≡ last.timer
  pub same_size : old.size ≡ last.size
  pub same_type : old.data_type ≡ last.data_type
  pub same_stream : old.stream_id ≡ swap_bytes last.stream_id

-- A packet like the last one in type and size is for the stream of the last one.
abbrev pub KeepsStream : Channel → Channel → Type 0
KeepsStream last c =
    last.data_type ≡ c.data_type → last.size ≡ c.size → last.stream_id ≡ c.stream_id

-- What the mask leaves out is the same.
pub data Covers (last c : Channel) : ℕ → Type 0 where
  all_sent : Covers last c 0
  stream_known : last.stream_id ≡ c.stream_id → Covers last c 1
  source_known :
      last.stream_id ≡ c.stream_id
      → last.data_type ≡ c.data_type
      → last.size ≡ c.size
      → Covers last c 2
  all_known :
      last.stream_id ≡ c.stream_id
      → last.data_type ≡ c.data_type
      → last.size ≡ c.size
      → last.timer ≡ c.timer
      → Covers last c 3

covered :
    (last c : Channel) (n : ℕ)
    → Covers last c n
    → mask_for last c ≡ n
    → Covers last c (mask_for last c)
covered last c n h e = subst (Covers last c) (sym e) h

pub mask_for-Covers : (last c : Channel) → KeepsStream last c → Covers last c (mask_for last c)
mask_for-Covers last c keeps =
    elim (Bool-cases (last.data_type == c.data_type && last.size == c.size)) [
      | inl alike ↦
          let typed : last.data_type ≡ c.data_type = ground arith in
          let sized_alike : last.size ≡ c.size = ground arith in
          let stream = keeps typed sized_alike in
          elim (Bool-cases (last.timer == c.timer)) [
            | inl at_once ↦
                covered last c 3
                  (all_known stream typed sized_alike ((==_iff last.timer c.timer).0 at_once))
                  (unfold mask_for in ground arith)
            | inr later ↦
                covered last c 2 (source_known stream typed sized_alike)
                  (unfold mask_for in ground arith)
          ]
      | inr unlike ↦ elim (Bool-cases (last.stream_id == c.stream_id)) [
        | inl stream ↦
            covered last c 1 (stream_known ((==_iff last.stream_id c.stream_id).0 stream))
              (unfold mask_for in ground arith)
        | inr elsewhere ↦ covered last c 0 all_sent (unfold mask_for in ground arith)
      ]
    ]

-- The channel with all fields of the packet.
abbrev pub renewed : Channel → Channel → Channel
renewed old c = record old {
  timer = c.timer;
  size = c.size;
  data_type = c.data_type;
  stream_id = swap_bytes c.stream_id;
}

abbrev channel : ℕ → ℕ → ℕ → ℕ → ℕ → Channel
channel used timer size data_type stream_id = record {
  used = used;
  timer = timer;
  size = size;
  data_type = data_type;
  stream_id = stream_id;
}

channel_ext :
    (a b : Channel)
    → a.used ≡ b.used
    → a.timer ≡ b.timer
    → a.size ≡ b.size
    → a.data_type ≡ b.data_type
    → a.stream_id ≡ b.stream_id
    → a ≡ b
channel_ext a b hu ht hz hd hs =
    ap (λ x. channel x a.timer a.size a.data_type a.stream_id) hu
    ∙ ap (λ x. channel b.used x a.size a.data_type a.stream_id) ht
    ∙ ap (λ x. channel b.used b.timer x a.data_type a.stream_id) hz
    ∙ ap (λ x. channel b.used b.timer b.size x a.stream_id) hd
    ∙ ap (λ x. channel b.used b.timer b.size b.data_type x) hs

pub channel_read-renewed :
    (last old c : Channel) (m : ℕ)
    → InStep last old
    → Covers last c m
    → channel_read m old c.timer c ≡ renewed old c
unfolding channel_read
channel_read-renewed last old c _ s all_sent = refl
channel_read-renewed last old c _ s (stream_known h) =
    channel_ext _ _ refl refl refl refl (s.same_stream ∙ ap swap_bytes h)
channel_read-renewed last old c _ s (source_known h ht hz) =
    channel_ext _ _ refl refl (s.same_size ∙ hz) (s.same_type ∙ ht)
      (s.same_stream ∙ ap swap_bytes h)
channel_read-renewed last old c _ s (all_known h ht hz hm) =
    channel_ext _ _ refl (s.same_timer ∙ hm) (s.same_size ∙ hz) (s.same_type ∙ ht)
      (s.same_stream ∙ ap swap_bytes h)

pub channel_kept-sent :
    (last c : Channel) (m : ℕ)
    → Covers last c m
    → channel_kept m last c ≡ record c { used = last.used }
unfolding channel_kept
channel_kept-sent last c _ all_sent = refl
channel_kept-sent last c _ (stream_known h) = channel_ext _ _ refl refl refl refl h
channel_kept-sent last c _ (source_known h ht hz) = channel_ext _ _ refl refl hz ht h
channel_kept-sent last c _ (all_known h ht hz hm) = channel_ext _ _ refl hm hz ht h

-- A channel that is in use at both ends and in step stays so: a packet that a little-endian sender writes on it, whatever
-- its header leaves out, is received whole by a connection on any machine, with its own time, size and type and the payload, the
-- sender's number for the channel's, and the stream's number with its bytes in the opposite order; nothing is left to read; and
-- what the sender keeps of the packet is again in step with what the receiver keeps. The packet is for the stream of the
-- last one if it is like it in type and size; the receiver is between packets and reads chunks of the sender's size. The
-- sender's number is from 2 to 63, the time is below 0xffffff, a chunk has a byte at least, the type
-- is from 1 to 255, the stream's number is below 2 ^ 32, the payload has from 1 to 32767 bytes, as has the last
-- one at most, and falls into the given pieces, and the buffer is valid and stays below 2 ^ 29 bytes. The time is sent as it is, not relative to the last one.
pub delivered-InStep :
    (small : Bool) (sender receiver : Proto) (b : WriteBuffer) (pac : Packet) (last old : Channel)
    (ps : List Bytes) (end : Bytes)
    → 2 ≤ sender.channel_id
    → sender.channel_id < 64
    → 0 < sender.write_chunk_size
    → receiver.read_chunk_size ≡ sender.write_chunk_size
    → at sender.channels_out pac.channel_id ≡ ok last
    → last.used ≢ 0
    → receiver.state ≡ 0
    → rtmp_proto_get_channel (at_header receiver sender.channel_id) ≡ ok old
    → InStep last old
    → KeepsStream last (sized pac)
    → last.size < 32 * 1024
    → IsSendable pac
    → pac.channel.timer < 0xffffff
    → 0 < pac.channel.data_type
    → length pac.payload < 32 * 1024
    → Pieces sender.write_chunk_size pac.payload ps end
    → Fits b (
        length (
          packet_on
            (mask_for last (sized pac))
            sender.channel_id
            pac.channel.timer
            (sized pac)
            ps
            end))
    → (sender' receiver' : Proto) × (b' : WriteBuffer) × (r : ReadBuffer) × (kept read : Channel)
      × (rtmp_packet_write_packet true sender b pac false ≡ ok (length b'.written, sender', b'))
      × (rtmp_packet_get_packet small receiver (reader b b')
          ≡ ok (delivered sender pac old, receiver', r))
      × (remaining r ≡ [])
      × (sender'.channels_out ≡ set sender.channels_out pac.channel_id kept)
      × (receiver'.channels_in ≡ set receiver.channels_in sender.channel_id read)
      × InStep kept read
delivered-InStep small sender receiver b pac last old ps end lo hi hc same at_out used idle known
      step keeps small_before s ht typed hs p f =
    let c = sized pac in
    let m = mask_for last c in
    let covers = mask_for-Covers last c keeps in
    let read = channel_read-renewed last old c m step covers in
    let (b', sent, w) =
      rtmp_packet_write_packet_used sender b pac false last ps end lo hi hc at_out used s p f in
    let (v, r) = reader_lem b b' (packet_on m sender.channel_id c.timer c ps end) w.bytes in
    let p' : Pieces receiver.read_chunk_size pac.payload ps end = rw same p in
    let (receiver', rb, got, kept, _, l) =
      rtmp_packet_get_packet-packet_on small receiver (reader b b') m sender.channel_id c.timer c
        old ps end [] (mask_for_bounded last c) idle lo hi known (omega arith) hs
        (omega (arith, step.same_size, small_before))
        (subst (λ d. d.timer < 0xffffff) (sym read) ht)
        (subst (λ d. 0 < d.data_type) (sym read) typed) pac.payload (ap (λ d. d.size) read) p'
        (v, r ∙ sym (append-nil _), refl) in
    (
      _,
      receiver',
      b',
      rb,
      channel_kept m last c,
      channel_read m old c.timer c,
      sent,
      got
          ∙ ap
              (λ d. ok (
                record { channel_id = sender.channel_id; channel = d; payload = pac.payload },
                receiver',
                rb,
              ))
              read,
      l.1,
      refl,
      kept,
      subst (λ d. InStep d (channel_read m old c.timer c)) (sym (channel_kept-sent last c m covers))
          (subst (λ d. InStep (record c { used = last.used }) d) (sym read)
            (record { same_timer = refl; same_size = refl; same_type = refl; same_stream = refl })),
    )
