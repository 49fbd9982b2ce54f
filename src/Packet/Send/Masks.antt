-- ===== src/Packet/Send/Masks.antt =====
-- `rtmp_packet_write_packet` on a channel in use: the header leaves out what the mask says.
use mathlib.Core.Path.{subst}
use rushkit.Base.{
  ℕ, zero, suc, ◌+◌, ◌*◌, ◌%◌, ◌^◌, ◌≤◌, ◌<◌, ◌≡◌, ◌≢◌, refl, ap, Bool, true, List, [], ◌∷◌, ◌++◌,
  append-nil, sym, arith, Bytes, length, length-append_bytes,
}
use rushkit.Base.Outcome.{ok}
use rushkit.Word.{little_endian}
use rushkit.Buffer.WriteBuffer.{
  WriteBuffer, rtmp_wb_write_byte, rtmp_wb_write_medium_int, rtmp_wb_tell,
}
use rushkit.Session.{Channel, Packet, Proto, at, set}
use rushkit.Packet.Wire.{medium, join, Pieces, header_fields, packet_on}
use rushkit.Packet.Send.{
  mask_for, out_channel, sent_time, write_source, write_header, rtmp_packet_write_packet,
}
use rushkit.Packet.Send.Headers.{
  Wrote, Wrote-trans, Fits, Fits-Wrote, writes, write_header_bytes_lem,
}
use rushkit.Packet.Send.Chunks.{write_payload, write_header_new}
use rushkit.Packet.Send.NewPacket.{sized, IsSendable, length-flatten-le}

-- The channel as it is kept behind a header with this mask.
unfoldable pub channel_kept : ℕ → Channel → Channel → Channel
channel_kept zero last c = record c { used = last.used }
channel_kept (suc zero) last c = record last {
  timer = c.timer;
  data_type = c.data_type;
  size = c.size;
}
channel_kept (suc (suc zero)) last c = record last { timer = c.timer }
channel_kept (suc (suc (suc m))) last c = last

write_source_lem :
    (b : WriteBuffer) (t : ℕ) (c : Channel)
    → c.data_type < 256
    → Fits b 7
    → (b' : WriteBuffer) × (write_source b t c ≡ ok b')
      × Wrote b (medium t ++ (medium c.size ++ (c.data_type ∷ []))) b'
unfolding write_source rtmp_wb_write_medium_int rtmp_wb_write_byte
write_source_lem b t c h f =
    let typed : c.data_type % 256 ≡ c.data_type = omega arith in
    let (n₁, b₁, e₁, w₁) = writes b (medium t) (f.0, omega (arith, f.1)) in
    let f₁ = Fits-Wrote (medium t) 4 w₁ f in
    let (n₂, b₂, e₂, w₂) = writes b₁ (medium c.size) (f₁.0, omega (arith, f₁.1)) in
    let f₂ = Fits-Wrote (medium c.size) 1 w₂ f₁ in
    let (n₃, b₃, e₃, w₃) = writes b₂ (c.data_type ∷ []) (f₂.0, omega (arith, f₂.1)) in
    (
      b₃,
      rw (typed, e₁, e₂, e₃) refl,
      Wrote-trans (medium t) _ w₁ (Wrote-trans (medium c.size) _ w₂ w₃),
    )

write_header_masked :
    (m : ℕ) (b : WriteBuffer) (t : ℕ) (last c : Channel)
    → m < 4
    → c.data_type < 256
    → c.stream_id < 2 ^ 32
    → Fits b (length (header_fields m t c))
    → (b' : WriteBuffer) × (write_header true b m t last c ≡ ok (channel_kept m last c, b'))
      × Wrote b (header_fields m t c) b'
unfolding header_fields channel_kept little_endian
write_header_masked zero b t last c lt hd hs f =
    let typed : c.data_type % 256 ≡ c.data_type = omega arith in
    let (b', e, w) = write_header_new b t last c hs f in
    (
      b',
      e,
      subst (λ x. Wrote b (medium t ++ (medium c.size ++ (x ∷ little_endian 4 c.stream_id))) b')
          typed w,
    )
write_header_masked (suc zero) b t last c lt hd hs f =
    let (b', e, w) = write_source_lem b t c hd f in (b', unfold write_header in rw e refl, w)
write_header_masked (suc (suc zero)) b t last c lt hd hs f =
    let (n, b', e, w) = writes b (medium t) f in
    (b', unfold write_header in unfold rtmp_wb_write_medium_int in rw e refl, w)
write_header_masked (suc (suc (suc zero))) b t last c lt hd hs f =
    (b, unfold write_header in refl, record { bytes = sym (append-nil b.written); valid = f.0 })
write_header_masked (suc (suc (suc (suc m)))) b t last c lt hd hs f = absurd (omega arith)

out_channel_used : (last c : Channel) → last.used ≢ 0 → out_channel last c ≡ (last, mask_for last c)
unfolding out_channel
out_channel_used last c h = ground arith

pub mask_for_bounded : (last c : Channel) → mask_for last c < 4
unfolding mask_for
mask_for_bounded last c = ground arith

-- On a little-endian machine, a connection whose number is from 2 to 63 sends a packet on a channel that is in use as one
-- header under its own number, with the fields that `mask_for` asks for and the time or its difference to the last one,
-- and the payload in chunks; it returns the number of bytes in the buffer and keeps the fields that were sent. A chunk
-- has a byte at least, the packet's fields fit the wire, its payload is not empty and falls into the given
-- pieces, and the buffer is valid and stays below 2 ^ 29 bytes.
pub rtmp_packet_write_packet_used :
    (proto : Proto) (b : WriteBuffer) (pac : Packet) (rel : Bool) (last : Channel) (ps : List Bytes)
    (end : Bytes)
    → let m = mask_for last (sized pac) in
      let t = sent_time rel last (sized pac) in
      2 ≤ proto.channel_id
      → proto.channel_id < 64
      → 0 < proto.write_chunk_size
      → at proto.channels_out pac.channel_id ≡ ok last
      → last.used ≢ 0
      → IsSendable pac
      → Pieces proto.write_chunk_size pac.payload ps end
      → Fits b (length (packet_on m proto.channel_id t (sized pac) ps end))
      → (b' : WriteBuffer) × (rtmp_packet_write_packet true proto b pac rel
          ≡ ok (
            length b'.written,
            record proto {
              channels_out =
                  set proto.channels_out pac.channel_id (channel_kept m last (sized pac));
            },
            b',
          ))
        × Wrote b (packet_on m proto.channel_id t (sized pac) ps end) b'
unfolding rtmp_packet_write_packet packet_on rtmp_wb_tell
rtmp_packet_write_packet_used proto b pac rel last ps end lo hi hc at_out used s p f =
    let c = sized pac in
    let m = mask_for last c in
    let t = sent_time rel last c in
    let id = proto.channel_id in
    let head = header_fields m t c in
    let tail = join (192 + id) ps end in
    let bounded = mask_for_bounded last c in
    let f₀ : Fits b (1 + (length head + length tail)) =
      (f.0, omega (arith, f.1, length-append_bytes head tail)) in
    let short : length pac.payload % 2 ^ 32 ≡ length pac.payload =
      omega (arith, ap length p.whole, length-flatten-le (192 + id) ps end, f₀.1) in
    let (b₁, e₁, w₁) =
      write_header_bytes_lem true proto b m pac.channel_id lo hi (f₀.0, omega (arith, f₀.1)) in
    let byte : (m * 2 ^ 6 + id) % 256 ≡ m * 2 ^ 6 + id = omega (arith, bounded) in
    let f₁ = Fits-Wrote _ (length head + length tail) w₁ f₀ in
    let (b₂, e₂, w₂) =
      write_header_masked m b₁ t last c bounded s.type_fits s.stream_fits
        (f₁.0, omega (arith, f₁.1)) in
    let f₂ = Fits-Wrote head (length tail) w₂ f₁ in
    let (b₃, e₃, w₃) =
      write_payload true proto pac.channel_id lo hi pac.payload ps end b₂ p hc f₂ in
    (
      b₃,
      rw (short, at_out, out_channel_used last c used, e₁, e₂, e₃) refl,
      Wrote-trans _ (head ++ tail) (subst (λ x. Wrote b (x ∷ []) b₁) byte w₁)
          (Wrote-trans head tail w₂ w₃),
    )
