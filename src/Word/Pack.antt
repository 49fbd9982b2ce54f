-- ===== src/Word/Pack.antt =====
-- The fixed-width routines of core/src/utils.c.
use mathlib.Core.List.{reverse, reverse-reverse}
use rushkit.Base.{ℕ, ◌^◌, ◌<◌, ◌≡◌, refl, ◌∙◌, Bool, true, false, ◌++◌, arith, Bytes}
use rushkit.Base.Outcome.{ok, split_at-append}
use rushkit.Word.{
  little_endian, in_memory, load_data, load_data_reverse, probe_small_endian, pack_short, pack_long,
  unpack_short, unpack_int,
}
use rushkit.Word.Wire.{
  big_endian, load_data-in_memory, from_memory-load_data, length-load_data_word, load_data_small,
}

-- `probe_small_endian` finds out the machine's byte order.
pub probe_small_endian_lem : (small : Bool) → probe_small_endian small ≡ small
unfolding probe_small_endian
probe_small_endian_lem true = refl
probe_small_endian_lem false = refl

-- `pack_short` and `pack_long` write two and four bytes, the high byte first, whatever the machine's
-- byte order.
pub pack_big_endian :
    (small : Bool) (v : ℕ)
    → (pack_short small v ≡ big_endian 2 v) × (pack_long small v ≡ big_endian 4 v)
unfolding pack_short pack_long
pack_big_endian small v = (load_data-in_memory small 2 v, load_data-in_memory small 4 v)

-- `unpack_int` reads a 32-bit pattern back from what `pack_long` wrote in front of anything.
pub unpack_int-pack_long :
    (small : Bool) (v : ℕ) (rest : Bytes)
    → v < 2 ^ 32
    → unpack_int small (pack_long small v ++ rest) ≡ ok v
unfolding unpack_int pack_long
unpack_int-pack_long small v rest h =
    rw
      (split_at-append 4 (load_data small (in_memory small 4 v)) rest
        (length-load_data_word small 4 v))
      (rw (from_memory-load_data small 4 v (omega arith)))

-- `unpack_short` reads a 16-bit pattern back from what `pack_short` wrote in front of anything.
pub unpack_short-pack_short :
    (small : Bool) (v : ℕ) (rest : Bytes)
    → v < 2 ^ 16
    → unpack_short small (pack_short small v ++ rest) ≡ ok v
unfolding unpack_short pack_short
unpack_short-pack_short small v rest h =
    rw
      (split_at-append 2 (load_data small (in_memory small 2 v)) rest
        (length-load_data_word small 2 v))
      (rw (from_memory-load_data small 2 v (omega arith)))

-- `load_data_reverse` puts a word out with its low byte first.
pub load_data_reverse-in_memory :
    (small : Bool) (n v : ℕ) → load_data_reverse small (in_memory small n v) ≡ little_endian n v
unfolding load_data_reverse load_data in_memory
load_data_reverse-in_memory true n v = refl
load_data_reverse-in_memory false n v =
    load_data_small (reverse (little_endian n v)) ∙ reverse-reverse (little_endian n v)
