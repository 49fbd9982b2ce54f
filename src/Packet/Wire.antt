-- ===== src/Packet/Wire.antt =====
-- The bytes of a packet on the wire, as RTMP lays them out: one header, and the payload in chunks
-- with a header byte between them.
use rushkit.Base.{
  ℕ, zero, suc, ◌+◌, ◌*◌, ◌/◌, ◌%◌, ◌^◌, ◌≤◌, ◌<◌, ◌≡◌, refl, sym, ap, ◌∙◌, List, [], ◌∷◌, ◌++◌,
  arith, Bytes, length, All, take, drop, length-take, length-drop, take-append-drop, leb,
  Bool-cases, inl, inr,
}
use rushkit.Word.{little_endian}
use rushkit.Session.{Channel}

-- The low bytes of a 24-bit number, highest first.
abbrev pub medium : ℕ → Bytes
medium e = (e / 2 ^ 16 % 256) ∷ (e / 2 ^ 8 % 256) ∷ (e % 256) ∷ []

-- The pieces of a payload, each but the last followed by the header byte of the next.
unfoldable pub join : ℕ → List Bytes → Bytes → Bytes
join header [] last = last
join header (p ∷ ps) last = p ++ (header ∷ join header ps last)

abbrev pub flatten : List Bytes → Bytes → Bytes
flatten [] last = last
flatten (p ∷ ps) last = p ++ flatten ps last

-- The pieces fill the chunks, and the last one is not empty and fits a chunk.
pub record Pieces (chunk : ℕ) (payload : Bytes) (ps : List Bytes) (last : Bytes) : Type 0 where
  pub whole : payload ≡ flatten ps last
  pub full : All (λ p. length p ≡ chunk) ps
  pub some_last : 0 < length last
  pub last_fits : length last ≤ chunk

cut_within :
    (n chunk : ℕ) (payload : Bytes)
    → 0 < chunk
    → 0 < length payload
    → length payload ≤ n
    → (ps : List Bytes) × (last : Bytes) × Pieces chunk payload ps last
cut_within zero chunk payload hc hp hn = absurd (omega arith)
cut_within (suc n) chunk payload hc hp hn = elim (Bool-cases (leb (length payload) chunk)) [
  | inl fits ↦
      ([], payload, record { whole = refl; full = tt; some_last = hp; last_fits = ground arith })
  | inr more ↦
      let long : chunk < length payload = ground arith in
      let rest = drop chunk payload in
      let (ps, last, s) =
        cut_within n chunk rest hc (omega (arith, length-drop chunk payload))
          (omega (arith, length-drop chunk payload)) in
      (
        take chunk payload ∷ ps,
        last,
        record {
          whole = sym (take-append-drop chunk payload) ∙ ap (λ r. take chunk payload ++ r) s.whole;
          full = (omega (arith, length-take chunk payload), s.full);
          some_last = s.some_last;
          last_fits = s.last_fits;
        },
      )
]

-- Every payload that is not empty falls into pieces.
pub pieces :
    (chunk : ℕ) (payload : Bytes)
    → 0 < chunk
    → 0 < length payload
    → (ps : List Bytes) × (last : Bytes) × Pieces chunk payload ps last
pieces chunk payload hc hp = cut_within (length payload) chunk payload hc hp (omega arith)

-- A packet that shares nothing with an earlier one: `id` heads it, and each further chunk.
unfoldable pub new_packet : ℕ → Channel → List Bytes → Bytes → Bytes
unfolding little_endian join
new_packet id c ps last =
    id
    ∷ (medium c.timer
        ++ (medium c.size
            ++ (c.data_type ∷ (little_endian 4 c.stream_id ++ join (192 + id) ps last))))

-- The fields that a header with this mask has, with the time `t`.
unfoldable pub header_fields : ℕ → ℕ → Channel → Bytes
unfolding little_endian
header_fields zero t c = medium t ++ (medium c.size ++ (c.data_type ∷ little_endian 4 c.stream_id))
header_fields (suc zero) t c = medium t ++ (medium c.size ++ (c.data_type ∷ []))
header_fields (suc (suc zero)) t c = medium t
header_fields (suc (suc (suc m))) t c = []

-- A packet whose header leaves out what the mask says.
unfoldable pub packet_on : ℕ → ℕ → ℕ → Channel → List Bytes → Bytes → Bytes
unfolding header_fields join
packet_on mask id t c ps last =
    (mask * 2 ^ 6 + id) ∷ (header_fields mask t c ++ join (192 + id) ps last)
