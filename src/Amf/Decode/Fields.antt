-- ===== src/Amf/Decode/Fields.antt =====
-- The words, strings and elements that `amf_pack` writes, read back.
use rushkit.Base.{
  ℕ, ◌+◌, ◌%◌, ◌^◌, ◌<◌, ◌≡◌, ◌≢◌, refl, Bool, false, ◌++◌, append_assoc, arith, Bytes, length,
}
use rushkit.Base.Outcome.{ok, split_at-append, ◌>>=◌}
use rushkit.Word.{is_negative_short, in_memory, load_data}
use rushkit.Word.Wire.{from_memory-load_data, length-load_data_word}
use rushkit.Amf.{Value, Table, elem, type_of, amf_end}
use rushkit.Amf.Encode.{pack_double, pack_long, pack_short, pack_string}
use rushkit.Amf.Decode.{
  Read, unpack_word, unpack_double, unpack_long, unpack_short, unpack_zstr, unpack_elem,
}

module _ (small : Bool) where
  unpack_word_lem :
      (n v : ℕ) (rest : Bytes)
      → v < 256 ^ n
      → unpack_word small n (load_data small (in_memory small n v) ++ rest) ≡ ok (v, rest)
  unfolding unpack_word
  unpack_word_lem n v rest h =
      rw
        (split_at-append n (load_data small (in_memory small n v)) rest
          (length-load_data_word small n v))
        (rw (from_memory-load_data small n v h))

  pub unpack_double-pack_double :
      (d : ℕ) (rest : Bytes)
      → d < 2 ^ 64
      → unpack_double small (pack_double small d ++ rest) ≡ ok (d, rest)
  unfolding unpack_double pack_double
  unpack_double-pack_double d rest h = unpack_word_lem 8 d rest (omega arith)

  pub unpack_long-pack_long :
      (n : ℕ) (rest : Bytes)
      → n < 2 ^ 32
      → unpack_long small (pack_long small n ++ rest) ≡ ok (n, rest)
  unfolding unpack_long pack_long
  unpack_long-pack_long n rest h = unpack_word_lem 4 n rest (omega arith)

  pub unpack_short-pack_short :
      (n : ℕ) (rest : Bytes)
      → n < 2 ^ 16
      → unpack_short small (pack_short small n ++ rest) ≡ ok (n, rest)
  unfolding unpack_short pack_short
  unpack_short-pack_short n rest h = unpack_word_lem 2 n rest (omega arith)

  pub unpack_zstr-pack_string :
      (s rest : Bytes)
      → length s < 2 ^ 15
      → unpack_zstr small (pack_string small s ++ rest) ≡ ok (s, length s + 2, rest)
  unfolding unpack_zstr pack_string
  unpack_zstr-pack_string s rest h =
      let short : length s % 2 ^ 16 ≡ length s = omega arith in
      let positive : is_negative_short (length s) ≡ false = ground arith in
      rw
        (
          append_assoc (pack_short small (length s % 2 ^ 16)) s rest,
          short,
          unpack_short-pack_short (length s) (s ++ rest) (omega arith),
        )
        (rw (positive, split_at-append (length s) s rest refl))

  -- A round over a table that reads an element, and one that reads the end.
  pub unpack_elem-elem :
      (unpack : Bytes → Read Value) (more : Bytes → Read Table) (k : Bytes) (v : Value) (n : ℕ)
      (src rest : Bytes)
      → length k < 2 ^ 15
      → type_of v ≢ amf_end
      → unpack src ≡ ok (v, n, rest)
      → unpack_elem small unpack more (pack_string small k ++ src)
        ≡ (do (t, rs, rest') ← more rest; ok (elem k v t, length k + 2 + n + rs, rest'))
  unfolding unpack_elem
  unpack_elem-elem unpack more k v n src rest hk hv e =
      ground (arith, unpack_zstr-pack_string k src)
