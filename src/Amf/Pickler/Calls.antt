-- ===== src/Amf/Pickler/Calls.antt =====
-- The pickler on packed values, and a call from `amf_pack_call` to the pickler.
use mathlib.Core.Logic.{◌≢◌}
use rushkit.Base.{
  ℕ, zero, suc, ◌+◌, ◌^◌, ◌≤◌, ◌<◌, ◌≡◌, refl, ap, ◌∙◌, ◌↔◌, Bool, true, false, List, [], ◌∷◌, ◌++◌,
  arith, Bytes, length, lengths, All, Bool-cases, inl, inr,
}
use rushkit.Base.Outcome.{ok, ◌>>=◌, Ensures, returned, Ensures-bind}
use rushkit.Amf.{Value, number, string, plain, type_of, amf_nil}
use rushkit.Amf.Valid.{IsValid}
use rushkit.Amf.Encode.{amf_pack, pack_byte, pack_values}
use rushkit.Amf.Decode.{amf_unpack, unpack_fuel, is_end}
use rushkit.Amf.Decode.Consume.{amf_unpack-progress}
use rushkit.Amf.Decode.RoundTrip.{amf_unpack-amf_pack}
use rushkit.Amf.Pickler.{
  amf_ap_read_next, read_arguments_loop, amf_ap_read_arguments, read_array_loop, amf_ap_read_array,
  same_bytes, amf_string_equal,
}

pub string-IsValid : (s : Bytes) → length s < 2 ^ 15 → IsValid (string s)
unfolding IsValid
string-IsValid s h = h

pub number-IsValid : (d : ℕ) → d < 2 ^ 64 → IsValid (number d)
unfolding IsValid
number-IsValid d h = h

pub nil-IsValid : IsValid (plain amf_nil)
unfolding IsValid
nil-IsValid = (omega arith, refl)

module _ (small : Bool) where
  -- The type byte stands in front.
  amf_pack-cons : (v : Value) → (b : ℕ) × (bs : Bytes) × (amf_pack small v ≡ b ∷ bs)
  unfolding amf_pack pack_byte
  amf_pack-cons (number d) = (_, _, refl)
  amf_pack-cons _ = (_, _, refl)

  length-amf_pack_pos : (v : Value) → 0 < length (amf_pack small v)
  length-amf_pack_pos v = let (b, bs, e) = amf_pack-cons v in rw e (omega arith)

  pub amf_ap_read_next-amf_pack :
      (v : Value) (rest : Bytes)
      → IsValid v
      → amf_ap_read_next small (amf_pack small v ++ rest) ≡ ok (v, rest)
  unfolding amf_ap_read_next
  amf_ap_read_next-amf_pack v rest h = rw (amf_unpack-amf_pack small v rest h)

  read_arguments_loop_step :
      (fuel : ℕ) (v : Value) (rest : Bytes)
      → IsValid v
      → read_arguments_loop small (suc fuel) (amf_pack small v ++ rest)
        ≡ (do vs ← read_arguments_loop small fuel rest; ok (v ∷ vs))
  unfolding read_arguments_loop
  read_arguments_loop_step fuel v rest h =
      let (b, bs, e) = amf_pack-cons v in
      let reads = rw e at (amf_unpack-amf_pack small v rest h) in rw e (rw reads)

  read_arguments_loop-pack_values :
      (vs : List Value) (fuel : ℕ)
      → All IsValid vs
      → length (pack_values small vs) ≤ fuel
      → read_arguments_loop small fuel (pack_values small vs) ≡ ok vs
  unfolding pack_values
  read_arguments_loop-pack_values [] fuel h l = unfold read_arguments_loop in refl
  read_arguments_loop-pack_values (v ∷ vs) zero h l =
      absurd (omega (lengths, length-amf_pack_pos v))
  read_arguments_loop-pack_values (v ∷ vs) (suc fuel) h l =
      read_arguments_loop_step fuel v (pack_values small vs) h.0
      ∙ rw (read_arguments_loop-pack_values vs fuel h.1 (omega (lengths, length-amf_pack_pos v)))

  -- `amf_ap_read_arguments` reads back any list of values that were packed one after the other, if
  -- the wire format can carry each.
  pub amf_ap_read_arguments-pack_values :
      (vs : List Value)
      → All IsValid vs
      → amf_ap_read_arguments small (pack_values small vs) ≡ ok vs
  unfolding amf_ap_read_arguments
  amf_ap_read_arguments-pack_values vs h = read_arguments_loop-pack_values vs _ h (omega arith)

  read_arguments_loop-Ensures :
      (fuel : ℕ) (ap : Bytes)
      → length ap ≤ fuel
      → Ensures (λ vs. length vs ≤ length ap) (read_arguments_loop small fuel ap)
  unfolding read_arguments_loop
  read_arguments_loop-Ensures fuel [] l = returned (omega arith)
  read_arguments_loop-Ensures zero (b ∷ ap) l = absurd (omega arith)
  read_arguments_loop-Ensures (suc fuel) (b ∷ ap) l =
      Ensures-bind (amf_unpack-progress small b ap) λ (v, r, ap') p.
        Ensures-bind (read_arguments_loop-Ensures fuel ap' (omega arith))
          λ vs q. returned (omega arith)

  -- On every input `amf_ap_read_arguments` comes to an end, and where it returns it has read at most
  -- one value for each byte.
  pub amf_ap_read_arguments-Ensures :
      (ap : Bytes) → Ensures (λ vs. length vs ≤ length ap) (amf_ap_read_arguments small ap)
  unfolding amf_ap_read_arguments
  amf_ap_read_arguments-Ensures ap = read_arguments_loop-Ensures (length ap) ap (omega arith)

  -- The end of the data ends the array.
  read_array_loop_end : (fuel : ℕ) → read_array_loop small (suc fuel) [] ≡ ok ([], [])
  unfolding read_array_loop amf_unpack unpack_fuel type_of
  read_array_loop_end fuel = refl

  read_array_loop-Ensures :
      (fuel : ℕ) (ap : Bytes)
      → length ap < fuel
      → Ensures (λ (vs, rest). length vs + length rest ≤ length ap) (read_array_loop small fuel ap)
  unfolding read_array_loop
  read_array_loop-Ensures zero ap l = absurd (omega arith)
  read_array_loop-Ensures (suc fuel) [] l = rw (read_array_loop_end fuel) (returned (omega arith))
  read_array_loop-Ensures (suc fuel) (b ∷ ap) l =
      Ensures-bind (amf_unpack-progress small b ap) λ (v, r, ap') p. elim (Bool-cases (is_end v)) [
        | inl e ↦ rw e (returned (omega arith))
        | inr e ↦ rw e (
            Ensures-bind (read_array_loop-Ensures fuel ap' (omega arith))
              λ (vs, ap'') q. returned (omega arith))
      ]

  -- On every input `amf_ap_read_array` comes to an end, and where it returns it has read at most one
  -- value for each byte that it took.
  pub amf_ap_read_array-Ensures :
      (ap : Bytes)
      → Ensures (λ (vs, rest). length vs + length rest ≤ length ap) (amf_ap_read_array small ap)
  unfolding amf_ap_read_array
  amf_ap_read_array-Ensures ap = read_array_loop-Ensures (suc (length ap)) ap (omega arith)

same_bytes_iff : (s t : Bytes) → (same_bytes s t ≡ true) ↔ (s ≡ t)
unfolding same_bytes
same_bytes_iff [] [] = (λ _. refl, λ _. refl)
same_bytes_iff [] (b ∷ t) = (λ h. cc, λ h. cc)
same_bytes_iff (a ∷ s) [] = (λ h. cc, λ h. cc)
same_bytes_iff (a ∷ s) (b ∷ t) = let ih = same_bytes_iff s t in ground (arith, ih)

-- `amf_string_equal` answers true exactly when the string value holds the bytes of the C string.
pub amf_string_equal_iff :
    (s other : Bytes) → (amf_string_equal (string s) other ≡ ok true) ↔ (s ≡ other)
unfolding amf_string_equal
amf_string_equal_iff s other = let same = same_bytes_iff s other in ground (arith, same)

pub amf_string_equal_distinct :
    (s other : Bytes) → s ≢ other → amf_string_equal (string s) other ≡ ok false
unfolding amf_string_equal
amf_string_equal_distinct s other h = let same = same_bytes_iff s other in ground (arith, same)
