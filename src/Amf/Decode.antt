-- ===== src/Amf/Decode.antt =====
-- core/src/amf.c: `amf_unpack` and what it calls. The pickler `AP` is the bytes from its `src` to
-- `start + len`; a read past them is a fault, since the code makes no check of its own.
pub mod Consume
pub mod Fields
pub mod RoundTrip
use rushkit.Base.{
  ℕ, zero, suc, ◌+◌, ◌*◌, ◌%◌, ◌^◌, Bool, true, false, List, [], ◌∷◌, ◌++◌, Bytes, length, ◌==◌,
  if◌then◌else◌,
}
use rushkit.Base.Outcome.{Outcome, ok, fault, out_of_fuel, split_at, ◌>>=◌, ◌>>◌}
use rushkit.Word.{load_data, from_memory, is_negative_short, is_negative_int}
use rushkit.Amf.{
  Value, Items, Table, number, boolean, string, hash, plain, link, assoc_array, array, no_items,
  item, no_elems, elem, type_of, amf_number, amf_boolean, amf_string, amf_hash, amf_nil, amf_link,
  amf_assoc_array, amf_end, amf_array,
}

-- What a routine reads, its return value `rsum`, and the pickler that it leaves.
abbrev pub Read {ℓ} : Type ℓ → Type ℓ
Read A = Outcome (A × ℕ × Bytes)

abbrev pub is_end : Value → Bool
is_end v = type_of v == amf_end

module _ (small : Bool) where
  unfoldable pub unpack_word : ℕ → Bytes → Outcome (ℕ × Bytes)
  unpack_word width src = do
    (bs, src') ← split_at width src
    ok (from_memory small (load_data small bs), src')

  unfoldable pub unpack_double : Bytes → Outcome (ℕ × Bytes)
  unpack_double src = unpack_word 8 src

  unfoldable pub unpack_long : Bytes → Outcome (ℕ × Bytes)
  unpack_long src = unpack_word 4 src

  unfoldable pub unpack_short : Bytes → Outcome (ℕ × Bytes)
  unpack_short src = unpack_word 2 src

  unfoldable pub unpack_byte : Bytes → Outcome (ℕ × Bytes)
  unpack_byte [] = fault
  unpack_byte (b ∷ src) = ok (b, src)

  -- The size is a short. A negative one is passed to `memcpy` as a size_t close to 2 ^ 64, more than
  -- any buffer holds.
  unfoldable pub unpack_zstr : Bytes → Read Bytes
  unpack_zstr src = do
    (size, src₁) ← unpack_short src
    (content, src₂) ← if is_negative_short size then fault else split_at size src₁
    ok (content, size + 2, src₂)

  -- The containers call `amf_unpack` for their elements: `unpack`.
  module _ (unpack : Bytes → Read Value) where
    -- The loop of `_unpack_array`, with `n` rounds left.
    unfoldable pub unpack_items : ℕ → Bytes → Read Items
    unpack_items zero src = ok (no_items, 0, src)
    unpack_items (suc n) src = do
      (v, r, src₁) ← unpack src
      (vs, rs, src₂) ← unpack_items n src₁
      ok (item v vs, r + rs, src₂)

    -- A negative size is passed to `memset` as a size_t, as above.
    unfoldable pub unpack_array : Bytes → Read Items
    unpack_array src = do
      (sz, src₁) ← unpack_long src
      (vs, rs, src₂) ← if is_negative_int sz then fault else unpack_items sz src₁
      ok (vs, 4 + rs, src₂)

    -- One round of the loops over a table: the next element unless its value is AMF_END.
    unfoldable pub unpack_elem : (Bytes → Read Table) → Bytes → Read Table
    unpack_elem more src = do
      (k, r, src₁) ← unpack_zstr src
      (v, s, src₂) ← unpack src₁
      elim (is_end v) [
        | true ↦ ok (no_elems, r + s, src₂)
        | false ↦ do (t, rs, src₃) ← more src₂; ok (elem k v t, r + s + rs, src₃)
      ]

    -- The loop of `_unpack_assoc_array`, with `n` rounds left.
    unfoldable pub unpack_elems : ℕ → Bytes → Read Table
    unpack_elems zero src = ok (no_elems, 0, src)
    unpack_elems (suc n) src = unpack_elem (unpack_elems n) src

    -- With a negative size the loop does not run.
    unfoldable pub unpack_assoc_array : Bytes → Read Table
    unpack_assoc_array src = do
      (size, src₁) ← unpack_long src
      (t, rs, src₂) ← unpack_elems (if is_negative_int size then 0 else size) src₁
      ok (t, 4 + rs, src₂)

    -- `while(1)` on fuel.
    unfoldable pub unpack_hash_loop : ℕ → Bytes → Read Table
    unpack_hash_loop zero src = out_of_fuel
    unpack_hash_loop (suc fuel) src = unpack_elem (unpack_hash_loop fuel) src

    -- Each round takes two bytes at least.
    unfoldable pub unpack_hash : Bytes → Read Table
    unpack_hash src = unpack_hash_loop (suc (length src)) src

    -- The switch on the type byte.
    unfoldable pub unpack_payload : ℕ → Bytes → Read Value
    unpack_payload type src =
        if type == amf_number
        then (do (d, src₁) ← unpack_double src; ok (number d, 8, src₁))
        else if type == amf_boolean
        then (do (b, src₁) ← unpack_byte src; ok (boolean b, 1, src₁))
        else if type == amf_string
        then (do (s, r, src₁) ← unpack_zstr src; ok (string s, r, src₁))
        else if type == amf_assoc_array
        then (do (t, r, src₁) ← unpack_assoc_array src; ok (assoc_array t, r, src₁))
        else if type == amf_hash
        then (do (t, r, src₁) ← unpack_hash src; ok (hash t, r, src₁))
        else if type == amf_array
        then (do (xs, r, src₁) ← unpack_array src; ok (array xs, r, src₁))
        else if type == amf_link
        then (do (n, src₁) ← unpack_short src; ok (link n, 2, src₁))
        else ok (plain type, 0, src)

  -- The fuel bounds how deep the containers nest.
  unfoldable pub unpack_fuel : ℕ → Bytes → Read Value
  unpack_fuel zero src = out_of_fuel
  unpack_fuel (suc fuel) [] = ok (plain amf_end, 0, [])
  unpack_fuel (suc fuel) (type ∷ src) = do
    (v, r, src₁) ← unpack_payload (unpack_fuel fuel) type src
    ok (v, 1 + r, src₁)

  unfoldable pub amf_unpack : Bytes → Read Value
  amf_unpack src = unpack_fuel (suc (length src)) src
