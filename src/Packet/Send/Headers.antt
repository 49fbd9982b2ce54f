-- ===== src/Packet/Send/Headers.antt =====
-- What `rtmp_packet_write_packet` puts in front of a packet, and which connection's number it takes.
use rushkit.Base.{
  ℕ, ◌+◌, ◌*◌, ◌%◌, ◌^◌, ◌≤◌, ◌<◌, ◌≡◌, ◌≢◌, refl, ap, ◌∙◌, Bool, [], ◌∷◌, ◌++◌, append_assoc,
  arith, Bytes, length, lengths, true, false, ◌==◌, if◌then◌else◌, Bool-cases, inl, inr,
}
use rushkit.Base.Outcome.{ok, abort}
use rushkit.Buffer.WriteBuffer.{WriteBuffer, rtmp_wb_write, rtmp_wb_write_byte}
use rushkit.Buffer.WriteBuffer.Laws.{IsValid, rtmp_wb_write_lem}
use rushkit.Session.{Channel, Packet, Proto, at, rtmp_packet_reset}
use rushkit.Packet.Send.{
  out_channel, write_source, id_in_one, write_header_bytes, mask_for, write_header,
  rtmp_packet_write_packet,
}

-- From one buffer to another some bytes have been written.
pub record Wrote (b : WriteBuffer) (src : Bytes) (b' : WriteBuffer) : Type 0 where
  pub bytes : b'.written ≡ b.written ++ src
  pub valid : IsValid b'

pub Wrote-trans :
    {b b' b'' : WriteBuffer} (xs ys : Bytes)
    → Wrote b xs b'
    → Wrote b' ys b''
    → Wrote b (xs ++ ys) b''
Wrote-trans {b} xs ys w w' = record {
  bytes = w'.bytes ∙ rw w.bytes (append_assoc b.written xs ys);
  valid = w'.valid;
}

-- The room that is left in what an int counts.
abbrev pub Fits : WriteBuffer → ℕ → Type 0
Fits b n = IsValid b × (length b.written + n < 2 ^ 29)

pub Fits-Wrote :
    {b b' : WriteBuffer} (xs : Bytes) (n : ℕ) → Wrote b xs b' → Fits b (length xs + n) → Fits b' n
Fits-Wrote xs n w f = (w.valid, omega (lengths, ap length w.bytes))

pub writes :
    (b : WriteBuffer) (src : Bytes)
    → Fits b (length src)
    → (n : ℕ) × (b' : WriteBuffer) × (rtmp_wb_write b src ≡ ok (n, b')) × Wrote b src b'
writes b src f =
    let ((n, b'), e, a) = rtmp_wb_write_lem b src f.0 f.1 in
    (n, b', e, record { bytes = a.bytes; valid = a.valid })

-- The number that heads a packet is that of the connection: whatever channel the packet is for, the
-- bytes are the same.
pub write_header_bytes_ignores_channel :
    (small : Bool) (proto : Proto) (b : WriteBuffer) (packet_mask id id' : ℕ)
    → write_header_bytes small proto b packet_mask id
      ≡ write_header_bytes small proto b packet_mask id'
unfolding write_header_bytes
write_header_bytes_ignores_channel small proto b packet_mask id id' = refl

-- Between packets the connection's number is 0, and every attempt to send a packet on one of the
-- outgoing channels fails an assert.
pub rtmp_packet_write_packet-rtmp_packet_reset :
    (small : Bool) (proto : Proto) (b : WriteBuffer) (pac : Packet) (rel : Bool) (old : Channel)
    → at proto.channels_out pac.channel_id ≡ ok old
    → rtmp_packet_write_packet small (rtmp_packet_reset proto) b pac rel ≡ abort
unfolding rtmp_packet_write_packet write_header_bytes rtmp_packet_reset
rtmp_packet_write_packet-rtmp_packet_reset small proto b pac rel old e = rw e refl

-- The mask of a packet like the last one in type and size, but for another stream.
mask_for-other_stream :
    (last c : Channel) (at_once : Bool)
    → (last.timer == c.timer) ≡ at_once
    → last.stream_id ≢ c.stream_id
    → last.data_type ≡ c.data_type
    → last.size ≡ c.size
    → mask_for last c ≡ (if at_once then 2 else 1)
unfolding mask_for
mask_for-other_stream last c at_once e hs ht hz = ground arith

-- A packet with the type and the size of the last one on its channel, which is in use, but for another
-- stream, is sent without its stream: a packet that is the same but for a third stream gives the very
-- same outcome, in the bytes written and in what the connection keeps.
pub rtmp_packet_write_packet_loses_stream :
    (small : Bool) (proto : Proto) (b : WriteBuffer) (pac : Packet) (rel : Bool) (last : Channel)
    (s : ℕ)
    → at proto.channels_out pac.channel_id ≡ ok last
    → last.used ≢ 0
    → last.data_type ≡ pac.channel.data_type
    → last.size ≡ length pac.payload % 2 ^ 32
    → last.stream_id ≢ pac.channel.stream_id
    → last.stream_id ≢ s
    → rtmp_packet_write_packet small proto b pac rel
      ≡ rtmp_packet_write_packet small proto b
          (record pac { channel = record (pac.channel) { stream_id = s } })
          rel
unfolding rtmp_packet_write_packet out_channel write_header write_source
rtmp_packet_write_packet_loses_stream small proto b pac rel last s known used ht hz hs hs' =
    let c = record (pac.channel) { size = length pac.payload % 2 ^ 32 } in
    let c' = record c { stream_id = s } in
    let in_use : (last.used == 0) ≡ false = ground arith in
    elim (Bool-cases (last.timer == c.timer)) [
      | inl at_once ↦
          rw
            (
              known,
              in_use,
              mask_for-other_stream last c true at_once hs ht hz,
              mask_for-other_stream last c' true at_once hs' ht hz,
            )
            refl
      | inr later ↦
          rw
            (
              known,
              in_use,
              mask_for-other_stream last c false later hs ht hz,
              mask_for-other_stream last c' false later hs' ht hz,
            )
            refl
    ]

id_in_one_lem :
    (b : WriteBuffer) (packet_mask id : ℕ)
    → Fits b 1
    → (b' : WriteBuffer) × (id_in_one b packet_mask id ≡ ok (1, b'))
      × Wrote b (((packet_mask * 2 ^ 6 + id) % 256) ∷ []) b'
unfolding id_in_one rtmp_wb_write_byte
id_in_one_lem b packet_mask id f =
    let (n, b', e, w) = writes b (((packet_mask * 2 ^ 6 + id) % 256) ∷ []) f in (b', rw e, w)

-- A connection with a number from 2 to 63 heads a packet by one byte.
pub write_header_bytes_lem :
    (small : Bool) (proto : Proto) (b : WriteBuffer) (packet_mask id : ℕ)
    → 2 ≤ proto.channel_id
    → proto.channel_id < 64
    → Fits b 1
    → (b' : WriteBuffer) × (write_header_bytes small proto b packet_mask id ≡ ok (1, b'))
      × Wrote b (((packet_mask * 2 ^ 6 + proto.channel_id) % 256) ∷ []) b'
unfolding write_header_bytes
write_header_bytes_lem small proto b packet_mask id lo hi f =
    let (b', e, w) = id_in_one_lem b packet_mask proto.channel_id f in (b', ground arith, w)
