-- ===== src/Packet/Receive/Chunks.antt =====
-- The payload, taken together from its chunks by `_get_r6`.
use rushkit.Base.{
  ℕ, zero, suc, ◌+◌, ◌≤◌, ◌<◌, ◌≡◌, refl, ap, ◌∙◌, List, [], ◌∷◌, ◌++◌, append_assoc, arith, Bytes,
  length, length-append, length-append_bytes, lengths, All, le→leb,
}
use rushkit.Base.Outcome.{ok, ◌>>=◌}
use rushkit.Buffer.ReadBuffer.{ReadBuffer, read_bytes, rtmp_rb_read_e}
use rushkit.Buffer.ReadBuffer.Laws.{remaining, advance, reads, rtmp_rb_read_e-ok}
use rushkit.Buffer.FixBuffer.{FixBuffer, rtmp_fwb_write, rtmp_fwb_get_space}
use rushkit.Buffer.FixBuffer.Laws.{rtmp_fwb_write_lem}
use rushkit.Packet.Wire.{join, flatten}
use rushkit.Packet.Receive.{read_chunks, read_last}
use rushkit.Packet.Receive.Fields.{Left}

-- A buffer that takes the bytes that are missing.
abbrev pub filled : FixBuffer → Bytes → FixBuffer
filled fwb bs = record fwb { stored = fwb.stored ++ bs }

some-flatten : (ps : List Bytes) (last : Bytes) → 0 < length last → 0 < length (flatten ps last)
some-flatten [] last h = h
some-flatten (p ∷ ps) last h = omega (lengths, some-flatten ps last h)

-- On the wire a payload is not shorter.
pub length-flatten :
    (hd : ℕ) (ps : List Bytes) (last : Bytes) → length (flatten ps last) ≤ length (join hd ps last)
unfolding join
length-flatten hd [] last = omega arith
length-flatten hd (p ∷ ps) last = omega (
  lengths,
  length-flatten hd ps last,
  length-append_bytes p (flatten ps last),
  length-append_bytes p (hd ∷ join hd ps last),
)

chunks_done :
    (fuel chunk : ℕ) (fwb : FixBuffer) (b : ReadBuffer)
    → rtmp_fwb_get_space fwb ≤ chunk
    → read_chunks fuel chunk 1 fwb b ≡ ok (fwb, b)
unfolding read_chunks
chunks_done zero chunk fwb b h = ground arith
chunks_done (suc fuel) chunk fwb b h = ground arith

chunks_more :
    (fuel chunk : ℕ) (fwb fwb₁ : FixBuffer) (b b₁ b₂ : ReadBuffer) (p q : Bytes) (n : ℕ)
    → chunk < rtmp_fwb_get_space fwb
    → read_bytes b chunk ≡ ok (p, b₁)
    → rtmp_fwb_write fwb p ≡ ok (n, fwb₁)
    → rtmp_rb_read_e b₁ 1 ≡ ok (q, b₂)
    → read_chunks (suc fuel) chunk 1 fwb b ≡ read_chunks fuel chunk 1 fwb₁ b₂
unfolding read_chunks
chunks_more fuel chunk fwb fwb₁ b b₁ b₂ p q n h e₁ e₂ e₃ =
    ground (arith, le→leb (chunk + 1) (rtmp_fwb_get_space fwb))

last_piece :
    (fwb : FixBuffer) (b b' : ReadBuffer) (bs : Bytes)
    → 0 < length bs
    → length fwb.stored + length bs ≡ fwb.capacity
    → read_bytes b (length bs) ≡ ok (bs, b')
    → read_last (fwb, b) ≡ ok (filled fwb bs, b')
unfolding read_last
last_piece fwb b b' bs h e r =
    let left : rtmp_fwb_get_space fwb ≡ length bs = unfold rtmp_fwb_get_space in omega arith in
    let (w, _, _) =
      (rtmp_fwb_write_lem fwb bs (omega arith)).0 (unfold rtmp_fwb_get_space in omega arith) in
    ground (arith, w, left, r)

-- The chunks are read up to the last piece, and the last piece is read.
pub read_pieces :
    (chunk hd : ℕ) (ps : List Bytes) (last rest : Bytes) (fwb : FixBuffer) (b : ReadBuffer)
    (fuel : ℕ)
    → All (λ p. length p ≡ chunk) ps
    → 0 < length last
    → length last ≤ chunk
    → length fwb.stored + length (flatten ps last) ≡ fwb.capacity
    → length (flatten ps last) ≤ fuel
    → Left b (join hd ps last ++ rest)
    → (b' : ReadBuffer) × ((read_chunks fuel chunk 1 fwb b >>= read_last)
        ≡ ok (filled fwb (flatten ps last), b'))
      × Left b' rest
unfolding join
read_pieces chunk hd [] last rest fwb b fuel full some_last fits space enough l =
    let (r, v', r') = reads l.0 last rest l.1 (length last) refl in
    let done = chunks_done fuel chunk fwb b (unfold rtmp_fwb_get_space in omega arith) in
    (advance b (length last), rw done (last_piece fwb b _ last some_last space r), (v', r', l.2))
read_pieces chunk hd (p ∷ ps) last rest fwb b zero full some_last fits space enough l =
    absurd (omega (lengths, some-flatten ps last some_last))
read_pieces chunk hd (p ∷ ps) last rest fwb b (suc fuel) (h, full) some_last fits space enough l =
    let some_more = some-flatten ps last some_last in
    let e : remaining b ≡ p ++ (hd ∷ (join hd ps last ++ rest)) = l.1 ∙ append_assoc p _ rest in
    let (r₁, v₁, l₁) = reads l.0 p _ e chunk h in
    let r₂ = rtmp_rb_read_e-ok v₁ (hd ∷ []) _ l₁ in
    let (_, v₂, l₂) = reads v₁ (hd ∷ []) _ l₁ 1 refl in
    let (w, _, _) =
      (rtmp_fwb_write_lem fwb p (omega lengths)).0 (unfold rtmp_fwb_get_space in omega lengths) in
    let more =
      chunks_more fuel chunk fwb _ b _ _ p _ _ (unfold rtmp_fwb_get_space in omega lengths) r₁ w
        r₂ in
    let (b', done, l') =
      read_pieces chunk hd ps last rest (filled fwb p) (advance (advance b chunk) 1) fuel full
        some_last fits (omega (lengths, length-append {0} fwb.stored p))
        (omega (lengths, length-append {0} p (flatten ps last))) (v₂, l₂, l.2) in
    (
      b',
      rw more (
          done
          ∙ ap (λ s. ok (record fwb { stored = s }, b'))
              (append_assoc fwb.stored p (flatten ps last))),
      l',
    )
