-- ===== src/Amf/Decode/Consume.antt =====
-- `amf_unpack` on any input, well formed or not: it ends, and it reports what it takes.
use rushkit.Base.{
  ℕ, zero, suc, ◌+◌, ◌≤◌, ◌<◌, ◌≡◌, Bool, [], ◌∷◌, arith, Bytes, length, ◌==◌, Bool-cases, inl, inr,
}
use rushkit.Base.Outcome.{
  ok, Ensures, returned, faulted, Ensures-bind, Ensures-if, split_at-Ensures,
}
use rushkit.Word.{is_negative_short, is_negative_int}
use rushkit.Amf.{
  Value, Table, amf_number, amf_boolean, amf_string, amf_hash, amf_link, amf_assoc_array, amf_array,
}
use rushkit.Amf.Decode.{
  Read, is_end, unpack_word, unpack_double, unpack_long, unpack_short, unpack_byte, unpack_zstr,
  unpack_items, unpack_array, unpack_elem, unpack_elems, unpack_assoc_array, unpack_hash_loop,
  unpack_hash, unpack_payload, unpack_fuel, amf_unpack,
}

-- What was taken and what is left make up the input.
abbrev pub Consumes {ℓ} : {A : Type ℓ} → Bytes → A × ℕ × Bytes → Type 0
Consumes src (a, r, rest) = r + length rest ≡ length src

abbrev Takes : ℕ → Bytes → ℕ × Bytes → Type 0
Takes n src (v, rest) = n + length rest ≡ length src

module _ (small : Bool) where
  unpack_word-Ensures : (n : ℕ) (src : Bytes) → Ensures (Takes n src) (unpack_word small n src)
  unfolding unpack_word
  unpack_word-Ensures n src = Ensures-bind (split_at-Ensures n src) λ _ p. returned (p.1)

  unpack_double-Ensures : (src : Bytes) → Ensures (Takes 8 src) (unpack_double small src)
  unfolding unpack_double
  unpack_double-Ensures src = unpack_word-Ensures 8 src

  unpack_long-Ensures : (src : Bytes) → Ensures (Takes 4 src) (unpack_long small src)
  unfolding unpack_long
  unpack_long-Ensures src = unpack_word-Ensures 4 src

  unpack_short-Ensures : (src : Bytes) → Ensures (Takes 2 src) (unpack_short small src)
  unfolding unpack_short
  unpack_short-Ensures src = unpack_word-Ensures 2 src

  unpack_byte-Ensures : (src : Bytes) → Ensures (Takes 1 src) (unpack_byte small src)
  unfolding unpack_byte
  unpack_byte-Ensures [] = faulted
  unpack_byte-Ensures (b ∷ src) = returned (omega arith)

  unpack_zstr-Ensures :
      (src : Bytes)
      → Ensures (λ (s, r, rest). Consumes src (s, r, rest) × (2 ≤ r)) (unpack_zstr small src)
  unfolding unpack_zstr
  unpack_zstr-Ensures src = Ensures-bind (unpack_short-Ensures src) λ (size, src₁) p.
      Ensures-bind
        (Ensures-if (is_negative_short size) (λ _. faulted) (λ _. split_at-Ensures size src₁))
        λ (content, src₂) q. returned (omega arith, omega arith)

  module _ (unpack : Bytes → Read Value) (bound : ℕ)
      (unpack-Ensures : (src : Bytes)
        → length src ≤ bound
        → Ensures (Consumes src) (unpack src)) where
    unpack_items-Ensures :
        (n : ℕ) (src : Bytes)
        → length src ≤ bound
        → Ensures (Consumes src) (unpack_items small unpack n src)
    unfolding unpack_items
    unpack_items-Ensures zero src h = returned (omega arith)
    unpack_items-Ensures (suc n) src h = Ensures-bind (unpack-Ensures src h) λ (v, r, src₁) p.
        Ensures-bind (unpack_items-Ensures n src₁ (omega arith))
          λ (vs, rs, src₂) q. returned (omega arith)

    unpack_elem-Ensures :
        (more : Bytes → Read Table) (src : Bytes)
        → length src ≤ bound
        → ((rest : Bytes) → length rest < length src → Ensures (Consumes rest) (more rest))
        → Ensures (Consumes src) (unpack_elem small unpack more src)
    unfolding unpack_elem
    unpack_elem-Ensures more src h hm = Ensures-bind (unpack_zstr-Ensures src) λ (k, r, src₁) p.
        Ensures-bind (unpack-Ensures src₁ (omega arith)) λ (v, s, src₂) q.
          elim (Bool-cases (is_end v)) [
            | inl e ↦ rw e (returned (omega arith))
            | inr e ↦
                rw e
                  (Ensures-bind (hm src₂ (omega arith)) λ (t, rs, src₃) w. returned (omega arith))
          ]

    unpack_array-Ensures :
        (src : Bytes) → length src ≤ bound → Ensures (Consumes src) (unpack_array small unpack src)
    unfolding unpack_array
    unpack_array-Ensures src h = Ensures-bind (unpack_long-Ensures src) λ (sz, src₁) p.
        Ensures-bind
          (Ensures-if (is_negative_int sz) (λ _. faulted)
            (λ _. unpack_items-Ensures sz src₁ (omega arith)))
          λ (vs, rs, src₂) q. returned (omega arith)

    unpack_elems-Ensures :
        (n : ℕ) (src : Bytes)
        → length src ≤ bound
        → Ensures (Consumes src) (unpack_elems small unpack n src)
    unfolding unpack_elems
    unpack_elems-Ensures zero src h = returned (omega arith)
    unpack_elems-Ensures (suc n) src h =
        unpack_elem-Ensures (unpack_elems small unpack n) src h
          (λ rest l. unpack_elems-Ensures n rest (omega arith))

    unpack_assoc_array-Ensures :
        (src : Bytes)
        → length src ≤ bound
        → Ensures (Consumes src) (unpack_assoc_array small unpack src)
    unfolding unpack_assoc_array
    unpack_assoc_array-Ensures src h = Ensures-bind (unpack_long-Ensures src) λ (size, src₁) p.
        Ensures-bind (unpack_elems-Ensures _ src₁ (omega arith))
          λ (t, rs, src₂) q. returned (omega arith)

    unpack_hash_loop-Ensures :
        (fuel : ℕ) (src : Bytes)
        → length src < fuel
        → length src ≤ bound
        → Ensures (Consumes src) (unpack_hash_loop small unpack fuel src)
    unfolding unpack_hash_loop
    unpack_hash_loop-Ensures zero src l h = absurd (omega arith)
    unpack_hash_loop-Ensures (suc fuel) src l h =
        unpack_elem-Ensures (unpack_hash_loop small unpack fuel) src h
          (λ rest k. unpack_hash_loop-Ensures fuel rest (omega arith) (omega arith))

    unpack_hash-Ensures :
        (src : Bytes) → length src ≤ bound → Ensures (Consumes src) (unpack_hash small unpack src)
    unfolding unpack_hash
    unpack_hash-Ensures src h = unpack_hash_loop-Ensures (suc (length src)) src (omega arith) h

    plain-Ensures :
        (type : ℕ) (src : Bytes) → Ensures (Consumes src) (ok (Value.plain type, 0, src))
    plain-Ensures type src = returned (omega arith)

    unpack_payload-Ensures :
        (type : ℕ) (src : Bytes)
        → length src ≤ bound
        → Ensures (Consumes src) (unpack_payload small unpack type src)
    unfolding unpack_payload
    unpack_payload-Ensures type src h =
        Ensures-if (type == amf_number)
          (λ _. Ensures-bind (unpack_double-Ensures src) λ _ p. returned p)
          λ _.
            Ensures-if (type == amf_boolean)
              (λ _. Ensures-bind (unpack_byte-Ensures src) λ _ p. returned p)
              λ _.
                Ensures-if (type == amf_string)
                  (λ _. Ensures-bind (unpack_zstr-Ensures src) λ _ p. returned p.0)
                  λ _.
                    Ensures-if (type == amf_assoc_array)
                      (λ _. Ensures-bind (unpack_assoc_array-Ensures src h) λ _ p. returned p)
                      λ _.
                        Ensures-if (type == amf_hash)
                          (λ _. Ensures-bind (unpack_hash-Ensures src h) λ _ p. returned p)
                          λ _.
                            Ensures-if (type == amf_array)
                              (λ _. Ensures-bind (unpack_array-Ensures src h) λ _ p. returned p)
                              λ _.
                                Ensures-if (type == amf_link)
                                  (λ _. Ensures-bind (unpack_short-Ensures src) λ _ p. returned p)
                                  λ _. plain-Ensures type src

  unpack_fuel-Ensures :
      (fuel : ℕ) (src : Bytes)
      → length src < fuel
      → Ensures (Consumes src) (unpack_fuel small fuel src)
  unfolding unpack_fuel
  unpack_fuel-Ensures zero src h = absurd (omega arith)
  unpack_fuel-Ensures (suc fuel) [] h = returned (omega arith)
  unpack_fuel-Ensures (suc fuel) (type ∷ src) h =
      Ensures-bind
        (unpack_payload-Ensures (unpack_fuel small fuel) (length src)
          (λ rest l. unpack_fuel-Ensures fuel rest (omega arith)) type src (omega arith))
        λ _ p. returned (omega arith)

  -- At the end of the input `amf_unpack` takes nothing, and before it at least the type byte.
  pub amf_unpack-progress :
      (b : ℕ) (src : Bytes)
      → Ensures
          (λ (v, r, rest). Consumes (b ∷ src) (v, r, rest) × (length rest ≤ length src))
          (amf_unpack small (b ∷ src))
  unfolding amf_unpack unpack_fuel
  amf_unpack-progress b src =
      Ensures-bind
        (unpack_payload-Ensures (unpack_fuel small (suc (length src))) (length src)
          (λ rest l. unpack_fuel-Ensures (suc (length src)) rest (omega arith)) b src (omega arith))
        λ _ p. returned (omega arith, omega arith)

  -- On every input `amf_unpack` comes to an end; where it returns, the count that it returns and
  -- the bytes that it leaves make up the input.
  pub amf_unpack-Ensures : (src : Bytes) → Ensures (Consumes src) (amf_unpack small src)
  unfolding amf_unpack
  amf_unpack-Ensures src = unpack_fuel-Ensures (suc (length src)) src (omega arith)
