-- ===== src/Packet/Send/Chunks.antt =====
-- `rtmp_packet_write_packet` on a channel that is not in use writes the packet as RTMP lays it out.
use mathlib.Core.Path.{subst}
use rushkit.Base.{
  ℕ, zero, suc, ◌+◌, ◌*◌, ◌%◌, ◌^◌, ◌≤◌, ◌<◌, ◌≡◌, refl, sym, ap, ◌∙◌, Bool, true, List, [], ◌∷◌,
  ◌++◌, arith, Bytes, length, length-append, lengths, All, take, drop, take-append_length,
  drop-append_length, ltb, lt→ltb,
}
use rushkit.Base.Outcome.{ok, ◌>>=◌}
use rushkit.Word.{little_endian, in_memory, load_data_reverse}
use rushkit.Buffer.WriteBuffer.{
  WriteBuffer, rtmp_wb_write, rtmp_wb_write_byte, rtmp_wb_write_medium_int,
  rtmp_wb_write_reverse_int,
}
use rushkit.Session.{Channel, Proto}
use rushkit.Packet.Wire.{medium, join, flatten, Pieces}
use rushkit.Packet.Send.{
  write_header_bytes, to_long, write_source, write_header, write_last, write_chunks,
  channel_continue,
}
use rushkit.Packet.Send.Headers.{
  Wrote, Wrote-trans, Fits, Fits-Wrote, writes, write_header_bytes_lem,
}

module _ (small : Bool) (proto : Proto) (id : ℕ) (lo : 2 ≤ proto.channel_id)
    (hi : proto.channel_id < 64) where
  write_last_lem :
      (b : WriteBuffer) (p : Bytes)
      → 0 < length p
      → Fits b (length p)
      → (b' : WriteBuffer) × (write_last b p ≡ ok b') × Wrote b p b'
  unfolding write_last
  write_last_lem b p h f =
      let (n, b', e, w) = writes b p f in (b', rw (lt→ltb 0 (length p) h, e), w)

  last_round :
      (fuel : ℕ) (b : WriteBuffer) (p : Bytes)
      → length p ≤ proto.write_chunk_size
      → write_chunks fuel small proto b id p ≡ write_last b p
  unfolding write_chunks
  last_round zero b p h = ground arith
  last_round (suc fuel) b p h = ground arith

  other_round :
      (fuel : ℕ) (b : WriteBuffer) (p q : Bytes)
      → length p ≡ proto.write_chunk_size
      → 0 < length q
      → write_chunks (suc fuel) small proto b id (p ++ q) ≡ (do
        (_, b₁) ← rtmp_wb_write b p
        (_, b₂) ← write_header_bytes small proto b₁ channel_continue id
        write_chunks fuel small proto b₂ id q)
  unfolding write_chunks
  other_round fuel b p q hp hq =
      let more : ltb proto.write_chunk_size (length (p ++ q)) ≡ true = lt→ltb _ _ (omega lengths) in
      let front : take proto.write_chunk_size (p ++ q) ≡ p =
        ap (λ k. take k (p ++ q)) (sym hp) ∙ take-append_length p q in
      let behind : drop proto.write_chunk_size (p ++ q) ≡ q =
        ap (λ k. drop k (p ++ q)) (sym hp) ∙ drop-append_length p q in
      ground (arith, more, front, behind)

  length-flatten_pos :
      (ps : List Bytes) (last : Bytes) → 0 < length last → 0 < length (flatten ps last)
  length-flatten_pos [] last h = h
  length-flatten_pos (p ∷ ps) last h = omega (lengths, length-flatten_pos ps last h)

  write_chunks_lem :
      (ps : List Bytes) (fuel : ℕ) (last : Bytes) (b : WriteBuffer)
      → All (λ p. length p ≡ proto.write_chunk_size) ps
      → 0 < length last
      → length last ≤ proto.write_chunk_size
      → length ps ≤ fuel
      → Fits b (length (join (192 + proto.channel_id) ps last))
      → (b' : WriteBuffer) × (write_chunks fuel small proto b id (flatten ps last) ≡ ok b')
        × Wrote b (join (192 + proto.channel_id) ps last) b'
  unfolding join
  write_chunks_lem [] fuel last b hp hl hc hf f =
      let (b', e, w) = write_last_lem b last hl f in (b', last_round fuel b last hc ∙ e, w)
  write_chunks_lem (p ∷ ps) zero last b hp hl hc hf f = absurd (omega arith)
  write_chunks_lem (p ∷ ps) (suc fuel) last b hp hl hc hf f =
      let tail = join (192 + proto.channel_id) ps last in
      let fp : Fits b (length p + (1 + length tail)) =
        (f.0, omega (arith, f.1, length-append {0} p ((192 + proto.channel_id) ∷ tail))) in
      let (n, b₁, e₁, w₁) = writes b p (fp.0, omega (arith, fp.1)) in
      let f₁ = Fits-Wrote p (1 + length tail) w₁ fp in
      let (b₂, e₂, w₂) =
        write_header_bytes_lem small proto b₁ channel_continue id lo hi
          (f₁.0, omega (arith, f₁.1)) in
      let f₂ =
        Fits-Wrote (((channel_continue * 2 ^ 6 + proto.channel_id) % 256) ∷ []) (length tail) w₂
          f₁ in
      let (b₃, e₃, w₃) = write_chunks_lem ps fuel last b₂ hp.1 hl hc (omega arith) f₂ in
      let byte : (channel_continue * 2 ^ 6 + proto.channel_id) % 256 ≡ 192 + proto.channel_id =
        omega arith in
      (
        b₃,
        other_round fuel b p (flatten ps last) hp.0 (length-flatten_pos ps last hl)
            ∙ rw (e₁, e₂, e₃),
        Wrote-trans p _ w₁ (Wrote-trans _ tail (subst (λ x. Wrote b₁ (x ∷ []) b₂) byte w₂) w₃),
      )

  length-flatten :
      (ps : List Bytes) (last : Bytes)
      → All (λ p. length p ≡ proto.write_chunk_size) ps
      → 0 < proto.write_chunk_size
      → length ps ≤ length (flatten ps last)
  length-flatten [] last h hc = omega arith
  length-flatten (p ∷ ps) last h hc = omega (lengths, length-flatten ps last h.1 hc)

  -- A payload in pieces.
  pub write_payload :
      (payload : Bytes) (ps : List Bytes) (last : Bytes) (b : WriteBuffer)
      → Pieces proto.write_chunk_size payload ps last
      → 0 < proto.write_chunk_size
      → Fits b (length (join (192 + proto.channel_id) ps last))
      → (b' : WriteBuffer) × (write_chunks (length payload) small proto b id payload ≡ ok b')
        × Wrote b (join (192 + proto.channel_id) ps last) b'
  write_payload payload ps last b p hc f =
      let (b', e, w) =
        write_chunks_lem ps (length (flatten ps last)) last b p.full p.some_last p.last_fits
          (length-flatten ps last p.full hc) f in
      (b', rw p.whole e, w)

-- A long's first four bytes in the memory of a little-endian machine are those of the int.
reverse_int :
    (v : ℕ)
    → v < 2 ^ 32
    → load_data_reverse true (take 4 (in_memory true 8 (to_long v))) ≡ little_endian 4 v
unfolding load_data_reverse in_memory little_endian
reverse_int v h = ground arith

-- The header of a channel that was not in use, on a little-endian machine.
pub write_header_new :
    (b : WriteBuffer) (dtime : ℕ) (last c : Channel)
    → c.stream_id < 2 ^ 32
    → Fits b 11
    → (b' : WriteBuffer) × (write_header true b 0 dtime last c
        ≡ ok (record c { used = last.used }, b'))
      × Wrote b
          (medium dtime ++ (medium c.size ++ ((c.data_type % 256) ∷ little_endian 4 c.stream_id)))
          b'
unfolding write_header write_source rtmp_wb_write_medium_int rtmp_wb_write_byte
    rtmp_wb_write_reverse_int
write_header_new b dtime last c h f =
    let (n₁, b₁, e₁, w₁) = writes b (medium dtime) (f.0, omega (arith, f.1)) in
    let f₁ = Fits-Wrote (medium dtime) 8 w₁ f in
    let (n₂, b₂, e₂, w₂) = writes b₁ (medium c.size) (f₁.0, omega (arith, f₁.1)) in
    let f₂ = Fits-Wrote (medium c.size) 5 w₂ f₁ in
    let (n₃, b₃, e₃, w₃) = writes b₂ ((c.data_type % 256) ∷ []) (f₂.0, omega (arith, f₂.1)) in
    let f₃ = Fits-Wrote ((c.data_type % 256) ∷ []) 4 w₃ f₂ in
    let (n₄, b₄, e₄, w₄) = writes b₃ (little_endian 4 c.stream_id) (unfold little_endian in f₃) in
    (
      b₄,
      rw (reverse_int c.stream_id h, e₁, e₂, e₃, e₄) refl,
      Wrote-trans (medium dtime) _ w₁
          (Wrote-trans (medium c.size) _ w₂ (Wrote-trans ((c.data_type % 256) ∷ []) _ w₃ w₄)),
    )
