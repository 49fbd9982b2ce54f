-- ===== src/Amf/Decode/RoundTrip.antt =====
-- What `amf_pack` writes, `amf_unpack` reads back.
use rushkit.Base.{
  ℕ, zero, suc, ◌+◌, ◌%◌, ◌^◌, ◌≤◌, ◌<◌, ◌≡◌, ◌≢◌, refl, ap, Bool, [], ◌∷◌, ◌++◌, append_assoc,
  arith, Bytes, length, lengths, sym, ◌∙◌,
}
use rushkit.Base.Outcome.{ok, ◌>>=◌}
use rushkit.Amf.{
  Value, Items, Table, number, boolean, string, hash, plain, link, assoc_array, array, no_items,
  item, no_elems, elem, type_of, items_size, table_size, amf_end,
}
use rushkit.Amf.Valid.{IsValid, AreValidItems, AreValidElems}
use rushkit.Amf.Encode.{
  pack_long, pack_byte, pack_string, pack_empty_string, pack_end, amf_pack, pack_items, pack_elems,
}
use rushkit.Amf.Encode.Size.{
  byte_count, items_byte_count, elems_byte_count, byte_count_lem, length-pack_elems,
}
use rushkit.Amf.Decode.{
  Read, unpack_byte, unpack_items, unpack_array, unpack_elem, unpack_elems, unpack_assoc_array,
  unpack_hash_loop, unpack_hash, unpack_payload, unpack_fuel, amf_unpack,
}
use rushkit.Amf.Decode.Fields.{
  unpack_double-pack_double, unpack_long-pack_long, unpack_short-pack_short,
  unpack_zstr-pack_string, unpack_elem-elem,
}

module _ (small : Bool) where
  -- With fuel above its size a value is read back, whatever follows it.
  abbrev ReadsBack : Value → Type 0
  ReadsBack v =
      (fuel : ℕ) (rest : Bytes)
      → byte_count v < fuel
      → unpack_fuel small fuel (amf_pack small v ++ rest) ≡ ok (v, byte_count v, rest)

  -- Fuel above any bound is a successor.
  reads_back :
      (v : Value)
      → ((fuel : ℕ) (rest : Bytes)
          → byte_count v ≤ fuel
          → unpack_fuel small (suc fuel) (amf_pack small v ++ rest) ≡ ok (v, byte_count v, rest))
      → ReadsBack v
  reads_back v h zero rest l = absurd (omega arith)
  reads_back v h (suc fuel) rest l = h fuel rest (omega arith)

  -- The end of a hash.
  unpack_hash_loop_end :
      (fuel rounds : ℕ) (rest : Bytes)
      → 0 < fuel
      → 0 < rounds
      → unpack_hash_loop small
          (unpack_fuel small fuel)
          rounds
          (pack_empty_string small ++ (pack_end small ++ rest))
        ≡ ok (no_elems, 3, rest)
  unfolding unpack_hash_loop unpack_elem unpack_fuel unpack_payload pack_empty_string pack_end
      type_of pack_byte
  unpack_hash_loop_end zero rounds rest hf hr = elim hf [ ]
  unpack_hash_loop_end (suc fuel) zero rest hf hr = elim hr [ ]
  unpack_hash_loop_end (suc fuel) (suc rounds) rest hf hr =
      ground (arith, unpack_zstr-pack_string small [] (amf_end ∷ rest))

  -- The containers, from their loops.
  module _ (unpack : Bytes → Read Value) where
    read_array :
        (xs : Items) (n : ℕ) (rest : Bytes)
        → items_size xs < 2 ^ 31
        → unpack_items small unpack (items_size xs) (pack_items small xs ++ rest) ≡ ok (xs, n, rest)
        → unpack_array small unpack
            (pack_long small (items_size xs % 2 ^ 32) ++ pack_items small xs ++ rest)
          ≡ ok (xs, 4 + n, rest)
    unfolding unpack_array
    read_array xs n rest h e =
        let int : items_size xs % 2 ^ 32 ≡ items_size xs = omega arith in
        rw (int, append_assoc (pack_long small (items_size xs)) (pack_items small xs) rest)
          (ground
            (arith, unpack_long-pack_long small (items_size xs) (pack_items small xs ++ rest)))

    read_assoc_array :
        (t : Table) (n : ℕ) (rest : Bytes)
        → table_size t < 2 ^ 31
        → unpack_elems small unpack (table_size t) (pack_elems small t ++ rest) ≡ ok (t, n, rest)
        → unpack_assoc_array small unpack
            (pack_long small (table_size t % 2 ^ 32) ++ pack_elems small t ++ rest)
          ≡ ok (t, 4 + n, rest)
    unfolding unpack_assoc_array
    read_assoc_array t n rest h e =
        let int : table_size t % 2 ^ 32 ≡ table_size t = omega arith in
        rw (int, append_assoc (pack_long small (table_size t)) (pack_elems small t) rest)
          (ground (arith, unpack_long-pack_long small (table_size t) (pack_elems small t ++ rest)))

  -- One element in front of the others.
  read_elem :
      (fuel : ℕ) (more : Bytes → Read Table) (k : Bytes) (v : Value) (t : Table) (rest : Bytes)
      → length k < 2 ^ 15
      → type_of v ≢ amf_end
      → ReadsBack v
      → byte_count v < fuel
      → unpack_elem small (unpack_fuel small fuel) more (pack_elems small (elem k v t) ++ rest)
        ≡ (do
          (t', rs, rest') ← more (pack_elems small t ++ rest)
          ok (elem k v t', length k + 2 + byte_count v + rs, rest'))
  unfolding amf_pack
  read_elem fuel more k v t rest hk hv reads l =
      let src = pack_elems small t ++ rest in
      rw
        (
          append_assoc (pack_string small k) (amf_pack small v ++ pack_elems small t) rest,
          append_assoc (amf_pack small v) (pack_elems small t) rest,
        )
        (unpack_elem-elem small (unpack_fuel small fuel) more k v (byte_count v)
          (amf_pack small v ++ src) src hk hv (reads fuel src l))

  -- The number of bytes read, in another form.
  count {ℓ} :
      {A : Type ℓ} {a : A} {m n : ℕ} {rest : Bytes}
      → m ≡ n
      → ◌≡◌ {A = Read A} (ok (a, m, rest)) (ok (a, n, rest))
  count {A} {a = a} {rest = rest} e = ap (λ k. ok (a, k, rest)) e

  mutual
    unfolding IsValid amf_pack byte_count pack_byte unpack_fuel unpack_payload items_size table_size
        unpack_items unpack_elems unpack_hash_loop unpack_byte unpack_hash

    read_value :
        (v : Value)
        → IsValid v
        → (fuel : ℕ) (rest : Bytes) → byte_count v ≤ fuel
        → unpack_fuel small (suc fuel) (amf_pack small v ++ rest) ≡ ok (v, byte_count v, rest)
    read_value (number d) h f rest l = ground (arith, unpack_double-pack_double small d rest)
    read_value (boolean d) h f rest l = ground arith
    read_value (string d) h f rest l = ground (arith, unpack_zstr-pack_string small d rest)
    read_value (hash t) h f rest l =
        let tail = pack_empty_string small ++ (pack_end small ++ rest) in
        rw
          (
            append_assoc (pack_elems small t) (pack_empty_string small ++ pack_end small) rest,
            append_assoc (pack_empty_string small) (pack_end small) rest,
            read_hash t h f (suc (length (pack_elems small t ++ tail))) rest (omega arith)
                (omega (lengths, length-pack_elems small t)),
          )
          (count (omega arith))
    read_value (plain t) h f rest l = ground arith
    read_value (link n) h f rest l = ground (arith, unpack_short-pack_short small n rest)
    read_value (assoc_array t) h f rest l =
        rw
          (read_assoc_array (unpack_fuel small f) t (elems_byte_count t) rest h.0
            (read_elems t h.1 f rest (omega arith)))
          (count (omega arith))
    read_value (array xs) h f rest l =
        rw
          (read_array (unpack_fuel small f) xs (items_byte_count xs) rest h.0
            (read_items xs h.1 f rest (omega arith)))
          (count (omega arith))

    read_items :
        (xs : Items)
        → AreValidItems xs
        → (fuel : ℕ) (rest : Bytes) → items_byte_count xs < fuel
        → unpack_items small (unpack_fuel small fuel) (items_size xs) (pack_items small xs ++ rest)
          ≡ ok (xs, items_byte_count xs, rest)
    read_items no_items h f rest l = refl
    read_items (item v xs) h f rest l =
        rw
          (
            append_assoc (amf_pack small v) (pack_items small xs) rest,
            reads_back v (read_value v h.0) f (pack_items small xs ++ rest) (omega arith),
          )
          (rw (read_items xs h.1 f rest (omega arith)))

    read_elems :
        (t : Table)
        → AreValidElems t
        → (fuel : ℕ) (rest : Bytes) → elems_byte_count t < fuel
        → unpack_elems small (unpack_fuel small fuel) (table_size t) (pack_elems small t ++ rest)
          ≡ ok (t, elems_byte_count t, rest)
    read_elems no_elems h f rest l = refl
    read_elems (elem k v t) h f rest l =
        rw
          (
            read_elem f (unpack_elems small (unpack_fuel small f) (table_size t)) k v t rest h.0 h.1
                (reads_back v (read_value v h.2)) (omega arith),
            read_elems t h.3 f rest (omega arith),
          )
          refl

    read_hash :
        (t : Table)
        → AreValidElems t
        → (fuel rounds : ℕ) (rest : Bytes) → elems_byte_count t < fuel
        → elems_byte_count t < rounds
        → unpack_hash_loop small
            (unpack_fuel small fuel)
            rounds
            (pack_elems small t ++ (pack_empty_string small ++ (pack_end small ++ rest)))
          ≡ ok (t, elems_byte_count t + 3, rest)
    read_hash no_elems h f rounds rest l lr = unpack_hash_loop_end f rounds rest l lr
    read_hash (elem k v t) h f zero rest l lr = absurd (omega arith)
    read_hash (elem k v t) h f (suc rounds) rest l lr =
        rw
          (
            read_elem f (unpack_hash_loop small (unpack_fuel small f) rounds) k v t
                (pack_empty_string small ++ (pack_end small ++ rest)) h.0 h.1
                (reads_back v (read_value v h.2)) (omega arith),
            read_hash t h.3 f rounds rest (omega arith) (omega arith),
          )
          (count (omega arith))

  -- Whatever follows a packed value, `amf_unpack` reads the value back, returns the number of its bytes
  -- and leaves what follows, if the wire format can carry the value.
  pub amf_unpack-amf_pack :
      (v : Value) (rest : Bytes)
      → IsValid v
      → amf_unpack small (amf_pack small v ++ rest) ≡ ok (v, length (amf_pack small v), rest)
  unfolding amf_unpack
  amf_unpack-amf_pack v rest h =
      read_value v h (length (amf_pack small v ++ rest)) rest
        (omega (lengths, byte_count_lem small v))
      ∙ ap (λ n. ok (v, n, rest)) (sym (byte_count_lem small v))
