-- ===== src/Packet/Send/NewPacket.antt =====
-- `rtmp_packet_write_packet` on a channel that is not in use writes the packet as RTMP lays it out.
use mathlib.Core.Path.{subst}
use rushkit.Base.{
  ℕ, ◌+◌, ◌*◌, ◌%◌, ◌^◌, ◌≤◌, ◌<◌, ◌≡◌, refl, ap, Bool, true, false, List, [], ◌∷◌, ◌++◌, arith,
  Bytes, length, length-append, lengths,
}
use rushkit.Base.Outcome.{ok}
use rushkit.Word.{little_endian}
use rushkit.Buffer.WriteBuffer.{WriteBuffer, rtmp_wb_tell}
use rushkit.Session.{Channel, Packet, Proto, at, set, init_channel}
use rushkit.Packet.Wire.{medium, join, flatten, Pieces, new_packet}
use rushkit.Packet.Send.{out_channel, sent_time, rtmp_packet_write_packet}
use rushkit.Packet.Send.Headers.{Wrote, Wrote-trans, Fits, Fits-Wrote, write_header_bytes_lem}
use rushkit.Packet.Send.Chunks.{write_payload, write_header_new}

-- The channel of a packet with the size that it gets when it is sent.
abbrev pub sized : Packet → Channel
sized pac = record (pac.channel) { size = length pac.payload }

-- The fields of a packet that the wire can carry.
pub record IsSendable (pac : Packet) : Type 0 where
  pub timer_fits : pac.channel.timer < 2 ^ 32
  pub type_fits : pac.channel.data_type < 256
  pub stream_fits : pac.channel.stream_id < 2 ^ 32

pub length-flatten-le :
    (header : ℕ) (ps : List Bytes) (last : Bytes)
    → length (flatten ps last) ≤ length (join header ps last)
unfolding join
length-flatten-le header [] last = omega arith
length-flatten-le header (p ∷ ps) last =
    omega (
      lengths,
      length-append {0} p (header ∷ join header ps last),
      length-flatten-le header ps last,
    )

out_channel_new : (old c : Channel) → old.used ≡ 0 → out_channel old c ≡ (init_channel, 0)
unfolding out_channel
out_channel_new old c h = ground arith

-- The time that is sent does not depend on how it was asked for, since the channel's last time is 0.
sent_time_new :
    (rel : Bool) (c : Channel) → c.timer < 2 ^ 32 → sent_time rel init_channel c ≡ c.timer
unfolding init_channel
sent_time_new true c h = omega arith
sent_time_new false c h = refl

-- On a little-endian machine, a connection whose number is from 2 to 63 sends a packet on a channel
-- that is not in use as one header under its own number and the payload in chunks, returns the
-- number of bytes in the buffer, and keeps the packet's channel with its size. A chunk has a byte at
-- least, the packet's fields fit the wire, its payload is not empty and falls into the given pieces,
-- and the buffer is valid and stays below 2 ^ 29 bytes.
pub rtmp_packet_write_packet_new :
    (proto : Proto) (b : WriteBuffer) (pac : Packet) (rel : Bool) (old : Channel) (ps : List Bytes)
    (last : Bytes)
    → 2 ≤ proto.channel_id
    → proto.channel_id < 64
    → 0 < proto.write_chunk_size
    → at proto.channels_out pac.channel_id ≡ ok old
    → old.used ≡ 0
    → IsSendable pac
    → Pieces proto.write_chunk_size pac.payload ps last
    → Fits b (length (new_packet proto.channel_id (sized pac) ps last))
    → (b' : WriteBuffer) × (rtmp_packet_write_packet true proto b pac rel
        ≡ ok (
          length b'.written,
          record proto {
            channels_out = set proto.channels_out pac.channel_id (record (sized pac) { used = 1 });
          },
          b',
        ))
      × Wrote b (new_packet proto.channel_id (sized pac) ps last) b'
unfolding rtmp_packet_write_packet new_packet rtmp_wb_tell
rtmp_packet_write_packet_new proto b pac rel old ps last lo hi hc at_old unused s p f =
    let c = sized pac in
    let id = proto.channel_id in
    let head = medium c.timer ++ (medium c.size ++ (c.data_type ∷ little_endian 4 c.stream_id)) in
    let tail = join (192 + id) ps last in
    let whole : new_packet id c ps last ≡ id ∷ (head ++ tail) = refl in
    let f₀ : Fits b (1 + (11 + length tail)) = (f.0, omega (arith, f.1)) in
    let short : length pac.payload % 2 ^ 32 ≡ length pac.payload =
      omega (arith, ap length p.whole, length-flatten-le (192 + id) ps last, f₀.1) in
    let (b₁, e₁, w₁) =
      write_header_bytes_lem true proto b 0 pac.channel_id lo hi (f₀.0, omega (arith, f₀.1)) in
    let byte : (0 * 2 ^ 6 + id) % 256 ≡ id = omega arith in
    let f₁ = Fits-Wrote _ (11 + length tail) w₁ f₀ in
    let (b₂, e₂, w₂) =
      write_header_new b₁ c.timer init_channel c s.stream_fits (f₁.0, omega (arith, f₁.1)) in
    let f₂ = Fits-Wrote _ (length tail) w₂ f₁ in
    let (b₃, e₃, w₃) =
      write_payload true proto pac.channel_id lo hi pac.payload ps last b₂ p hc f₂ in
    let typed : c.data_type % 256 ≡ c.data_type = omega (arith, s.type_fits) in
    let w : Wrote b (id ∷ (head ++ tail)) b₃ =
      Wrote-trans (id ∷ []) (head ++ tail) (subst (λ x. Wrote b (x ∷ []) b₁) byte w₁) (
        Wrote-trans head tail
          (subst
            (λ x.
              Wrote b₁ (medium c.timer ++ (medium c.size ++ (x ∷ little_endian 4 c.stream_id))) b₂)
            typed w₂)
          w₃) in
    (
      b₃,
      rw (short, at_old, out_channel_new old c unused, e₁, sent_time_new rel c s.timer_fits, e₂, e₃)
          refl,
      w,
    )
