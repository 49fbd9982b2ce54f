-- ===== src/Word.antt =====
-- core/src/utils.c: words in memory and on the wire. A byte is a number below 256, an n-byte word
-- its bit pattern, a number below 256 ^ n.
pub mod Wire
pub mod Pack
use Prim.Native.Nat.{pred}
use mathlib.Core.List.{reverse}
use rushkit.Base.{
  ℕ, zero, suc, ◌+◌, ◌-◌, ◌*◌, ◌/◌, ◌%◌, ◌^◌, Bool, not, List, [], ◌∷◌, Bytes, ltb, ◌==◌,
  if◌then◌else◌,
}
use rushkit.Base.Outcome.{Outcome, ok, split_at, ◌>>=◌}

-- The machine's own layout of an `n`-byte word, which the program meets through `(byte*)(&src)`.
unfoldable pub little_endian : ℕ → ℕ → Bytes
little_endian zero v = []
little_endian (suc n) v = (v % 256) ∷ little_endian n (v / 256)

unfoldable pub from_little_endian : Bytes → ℕ
from_little_endian [] = 0
from_little_endian (b ∷ bs) = b + 256 * from_little_endian bs

unfoldable pub in_memory : Bool → ℕ → ℕ → Bytes
unfolding little_endian
in_memory small n v = if small then little_endian n v else reverse (little_endian n v)

unfoldable pub from_memory : Bool → Bytes → ℕ
unfolding from_little_endian
from_memory small bs = if small then from_little_endian bs else from_little_endian (reverse bs)

-- The loop of `__load_data`: `*dest = *src; src++; dest--`. What is written grows downwards.
copy_back : Bytes → Bytes → Bytes
copy_back [] dest = dest
copy_back (b ∷ src) dest = copy_back src (b ∷ dest)

-- `src` is the `len` bytes that are read; the result is the `len` bytes that are written.
load_data_from : Bytes → Bool → Bytes
unfolding copy_back
load_data_from src is_small_endian = if is_small_endian then copy_back src [] else src

-- The first argument of what follows is the global `system_is_small_endian`.
unfoldable pub load_data : Bool → Bytes → Bytes
unfolding load_data_from
load_data small src = load_data_from src small

unfoldable pub load_data_reverse : Bool → Bytes → Bytes
unfolding load_data_from
load_data_reverse small src = load_data_from src (not small)

-- `small` is the machine's own byte order; the result is what the global is set to.
pub probe_small_endian : Bool → Bool
unfolding in_memory
probe_small_endian small = elim (in_memory small 2 1942) [ [] ↦ small | b ∷ _ ↦ not (b == 0x07) ]

unfoldable pub pack_short : Bool → ℕ → Bytes
unfolding load_data in_memory
pack_short small value = load_data small (in_memory small 2 value)

unfoldable pub pack_long : Bool → ℕ → Bytes
unfolding load_data in_memory
pack_long small value = load_data small (in_memory small 4 value)

unfoldable pub unpack_short : Bool → Bytes → Outcome ℕ
unfolding load_data from_memory
unpack_short small buf = do (bs, _) ← split_at 2 buf; ok (from_memory small (load_data small bs))

unfoldable pub unpack_int : Bool → Bytes → Outcome ℕ
unfolding load_data from_memory
unpack_int small buf = do (bs, _) ← split_at 4 buf; ok (from_memory small (load_data small bs))

-- Signed reading: `(short)` and `int` patterns from half the range on are negative.
abbrev pub is_negative_short : ℕ → Bool
is_negative_short w = not (ltb w (2 ^ 15))

abbrev pub is_negative_int : ℕ → Bool
is_negative_int w = not (ltb w (2 ^ 31))

-- `a < b` on ints.
abbrev pub int_less : ℕ → ℕ → Bool
int_less a b = ltb ((a + 2 ^ 31) % 2 ^ 32) ((b + 2 ^ 31) % 2 ^ 32)

-- An int as a long.
abbrev pub to_long : ℕ → ℕ
to_long w = if is_negative_int w then w + 2 ^ 64 - 2 ^ 32 else w

-- A short as an int.
abbrev pub short_to_int : ℕ → ℕ
short_to_int w = if is_negative_short w then w + (2 ^ 32 - 2 ^ 16) else w
