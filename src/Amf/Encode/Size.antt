-- ===== src/Amf/Encode/Size.antt =====
-- `amf_get_pack_size` foretells what `amf_pack` writes, so the asserts behind them hold.
use rushkit.Base.{
  ℕ, ◌+◌, ◌%◌, ◌^◌, ◌≡◌, refl, ap, Bool, List, [], ◌∷◌, ◌++◌, Bytes, length, lengths, append_assoc,
  sym, ◌∙◌, ◌<◌, ◌⊎◌, inl, inr, length-append, Bool-cases, ◌==◌, arith,
}
use rushkit.Base.Outcome.{ok, abort, assert-eq, ok-injective}
use rushkit.Word.{to_long}
use rushkit.Word.Wire.{length-load_data_word}
use rushkit.Amf.{
  Value, Items, Table, number, boolean, string, hash, plain, link, assoc_array, array, no_items,
  item, no_elems, elem, amf_nil,
}
use rushkit.Amf.Encode.{
  pack_double, pack_long, pack_short, pack_byte, pack_string, pack_empty_string, pack_end, amf_pack,
  pack_items, pack_elems, pack_values, amf_get_pack_size, get_items_pack_size, get_elems_pack_size,
  sum_pack_size, amf_pack_arguments, amf_pack_call,
}

-- The number of bytes of a packed value, however large.
unfoldable mutual
  pub byte_count : Value → ℕ
  byte_count (number d) = 9
  byte_count (boolean b) = 2
  byte_count (string s) = 2 + length s + 1
  byte_count (hash t) = elems_byte_count t + 3 + 1
  byte_count (plain c) = 1
  byte_count (link n) = 3
  byte_count (assoc_array t) = 4 + elems_byte_count t + 1
  byte_count (array xs) = 4 + items_byte_count xs + 1

  pub items_byte_count : Items → ℕ
  items_byte_count no_items = 0
  items_byte_count (item v xs) = byte_count v + items_byte_count xs

  pub elems_byte_count : Table → ℕ
  elems_byte_count no_elems = 0
  elems_byte_count (elem k v t) = length k + 2 + byte_count v + elems_byte_count t

module _ (small : Bool) where
  pub length-pack_double : (d : ℕ) → length (pack_double small d) ≡ 8
  unfolding pack_double
  length-pack_double d = length-load_data_word small 8 d

  pub length-pack_long : (n : ℕ) → length (pack_long small n) ≡ 4
  unfolding pack_long
  length-pack_long n = length-load_data_word small 4 n

  pub length-pack_short : (n : ℕ) → length (pack_short small n) ≡ 2
  unfolding pack_short
  length-pack_short n = length-load_data_word small 2 n

  pub length-pack_string : (s : Bytes) → length (pack_string small s) ≡ 2 + length s
  unfolding pack_string
  length-pack_string s = omega (lengths, length-pack_short (length s % 2 ^ 16))

  ruleset word_lengths =
      (lengths, length-pack_double, length-pack_long, length-pack_short, length-pack_string)

  mutual
    unfolding amf_pack byte_count pack_byte pack_empty_string pack_end

    pub byte_count_lem : (v : Value) → length (amf_pack small v) ≡ byte_count v
    byte_count_lem (number d) = omega word_lengths
    byte_count_lem (boolean b) = refl
    byte_count_lem (string s) = omega word_lengths
    byte_count_lem (hash t) = omega (word_lengths, length-pack_elems t)
    byte_count_lem (plain c) = refl
    byte_count_lem (link n) = omega word_lengths
    byte_count_lem (assoc_array t) = omega (word_lengths, length-pack_elems t)
    byte_count_lem (array xs) = omega (word_lengths, length-pack_items xs)

    pub length-pack_items : (xs : Items) → length (pack_items small xs) ≡ items_byte_count xs
    length-pack_items no_items = refl
    length-pack_items (item v xs) = omega (word_lengths, byte_count_lem v, length-pack_items xs)

    pub length-pack_elems : (t : Table) → length (pack_elems small t) ≡ elems_byte_count t
    length-pack_elems no_elems = refl
    length-pack_elems (elem k v t) = omega (word_lengths, byte_count_lem v, length-pack_elems t)

  mutual
    unfolding byte_count amf_get_pack_size

    wrapped_size : (v : Value) → amf_get_pack_size v ≡ byte_count v % 2 ^ 32
    wrapped_size (number d) = refl
    wrapped_size (boolean b) = refl
    wrapped_size (string s) = refl
    wrapped_size (hash t) = omega (arith, wrapped_elems t)
    wrapped_size (plain c) = refl
    wrapped_size (link n) = refl
    wrapped_size (assoc_array t) = omega (arith, wrapped_elems t)
    wrapped_size (array xs) = omega (arith, wrapped_items xs)

    wrapped_items : (xs : Items) → get_items_pack_size xs ≡ items_byte_count xs % 2 ^ 32
    wrapped_items no_items = refl
    wrapped_items (item v xs) = omega (arith, wrapped_size v, wrapped_items xs)

    wrapped_elems : (t : Table) → get_elems_pack_size t ≡ elems_byte_count t % 2 ^ 32
    wrapped_elems no_elems = refl
    wrapped_elems (elem k v t) = omega (arith, wrapped_size v, wrapped_elems t)

  -- For every value, the size that `amf_get_pack_size` computes is the number of bytes that `amf_pack`
  -- writes, as an int: modulo 2 ^ 32.
  pub length-amf_pack : (v : Value) → amf_get_pack_size v ≡ length (amf_pack small v) % 2 ^ 32
  length-amf_pack v = omega (arith, wrapped_size v, byte_count_lem v)

  pub length-pack_values :
      (vs : List Value) → sum_pack_size vs ≡ length (pack_values small vs) % 2 ^ 32
  unfolding pack_values sum_pack_size
  length-pack_values [] = refl
  length-pack_values (v ∷ vs) = omega (lengths, length-amf_pack v, length-pack_values vs)

  -- With fewer than 2 ^ 31 bytes the assert of `amf_pack_arguments` holds: the call returns, and the
  -- buffer holds the packed values one after the other.
  pub amf_pack_arguments_lem :
      (vs : List Value)
      → length (pack_values small vs) < 2 ^ 31
      → amf_pack_arguments small vs ≡ ok (pack_values small vs)
  unfolding amf_pack_arguments
  amf_pack_arguments_lem vs h =
      let fits : to_long (sum_pack_size vs) ≡ length (pack_values small vs) =
        ground (arith, h, length-pack_values vs) in
      assert-eq _ fits

  pub pack_values-append :
      (us vs : List Value)
      → pack_values small (us ++ vs) ≡ pack_values small us ++ pack_values small vs
  unfolding pack_values
  pack_values-append [] vs = refl
  pack_values-append (u ∷ us) vs =
      rw (pack_values-append us vs) (sym (append_assoc (amf_pack small u) _ _))

  -- What `amf_pack_call` packs.
  abbrev call_values : Bytes → ℕ → List Value → List Value
  call_values name req_id vs = string name ∷ number req_id ∷ plain amf_nil ∷ vs

  -- With fewer than 2 ^ 31 bytes the assert of `amf_pack_call` holds: the call returns, and the buffer
  -- holds the method's name, the request's number, a nil and the arguments, packed one after the other.
  pub amf_pack_call_lem :
      (name : Bytes) (req_id : ℕ) (vs : List Value)
      → length (pack_values small (call_values name req_id vs)) < 2 ^ 31
      → amf_pack_call small name req_id vs ≡ ok (pack_values small (call_values name req_id vs))
  unfolding amf_pack_call
  amf_pack_call_lem name req_id vs h =
      let headers : List Value = string name ∷ number req_id ∷ plain amf_nil ∷ [] in
      let whole = pack_values-append headers vs in
      let short : length (pack_values small headers ++ pack_values small vs) < 2 ^ 31 =
        omega (arith, h, ap length whole) in
      let fits : to_long ((sum_pack_size headers + sum_pack_size vs) % 2 ^ 32)
          ≡ length (pack_values small headers ++ pack_values small vs) =
        ground (
          arith,
          short,
          length-pack_values headers,
          length-pack_values vs,
          length-append {0} (pack_values small headers) (pack_values small vs),
        ) in
      assert-eq _ fits ∙ ap ok (sym whole)

  -- What `amf_pack_call` gives, if it does, and that it does nothing else but fail its assert.
  pub amf_pack_call_result :
      (name : Bytes) (req_id : ℕ) (vs : List Value)
      → (amf_pack_call small name req_id vs ≡ ok (pack_values small (call_values name req_id vs)))
        ⊎ (amf_pack_call small name req_id vs ≡ abort)
  unfolding amf_pack_call
  amf_pack_call_result name req_id vs =
      let headers : List Value = string name ∷ number req_id ∷ plain amf_nil ∷ [] in
      let whole = pack_values-append headers vs in
      elim (Bool-cases (
        to_long ((sum_pack_size headers + sum_pack_size vs) % 2 ^ 32)
        == length (pack_values small headers ++ pack_values small vs))) [
          | inl fits ↦ inl (rw fits (ap ok (sym whole)))
          | inr off ↦ inr (rw off refl)
        ]

  pub amf_pack_call_inverse :
      {payload : Bytes} (name : Bytes) (req_id : ℕ) (vs : List Value)
      → amf_pack_call small name req_id vs ≡ ok payload
      → payload ≡ pack_values small (call_values name req_id vs)
  amf_pack_call_inverse name req_id vs e = elim (amf_pack_call_result name req_id vs) [
    | inl packed ↦ ok-injective (sym e ∙ packed)
    | inr failed ↦ cc
  ]
