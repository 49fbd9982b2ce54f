-- ===== src/Word/Wire.antt =====
-- Words on the wire: big-endian on either machine, and read back as they were written.
use mathlib.Core.List.{reverse, reverse_aux, reverse-reverse, reverse-append}
use native.Mathlib.Nat.{div-div-eq-div-mul, pow-suc, mul_comm}
use rushkit.Base.{
  ℕ, zero, suc, ◌+◌, ◌/◌, ◌%◌, ◌^◌, ◌<◌, ◌≡◌, refl, ap, ◌∙◌, Bool, true, false, [], ◌∷◌, ◌++◌,
  arith, Bytes, length,
}
use rushkit.Word.{little_endian, from_little_endian, in_memory, from_memory, copy_back, load_data}

-- The `n` low bytes of `v`, highest first.
unfoldable pub big_endian : ℕ → ℕ → Bytes
big_endian zero v = []
big_endian (suc n) v = (v / 256 ^ n % 256) ∷ big_endian n v

copy_back-reverse_aux : (src dest : Bytes) → copy_back src dest ≡ reverse_aux src dest
unfolding copy_back
copy_back-reverse_aux [] dest = refl
copy_back-reverse_aux (b ∷ src) dest = copy_back-reverse_aux src (b ∷ dest)

pub load_data_small : (bs : Bytes) → load_data true bs ≡ reverse bs
unfolding load_data
load_data_small bs = copy_back-reverse_aux bs []

pub load_data_big : (bs : Bytes) → load_data false bs ≡ bs
unfolding load_data
load_data_big bs = refl

length-little_endian : (n v : ℕ) → length (little_endian n v) ≡ n
unfolding little_endian
length-little_endian zero v = refl
length-little_endian (suc n) v = ap suc (length-little_endian n (v / 256))

length-reverse_aux_bytes : (xs ys : Bytes) → length (reverse_aux xs ys) ≡ length xs + length ys
length-reverse_aux_bytes [] ys = omega arith
length-reverse_aux_bytes (b ∷ xs) ys = omega (arith, length-reverse_aux_bytes xs (b ∷ ys))

pub length-load_data : (small : Bool) (bs : Bytes) → length (load_data small bs) ≡ length bs
length-load_data true bs = rw load_data_small (omega (arith, length-reverse_aux_bytes bs []))
length-load_data false bs = rw load_data_big

length-in_memory : (small : Bool) (n v : ℕ) → length (in_memory small n v) ≡ n
unfolding in_memory
length-in_memory true n v = length-little_endian n v
length-in_memory false n v =
    omega (arith, length-reverse_aux_bytes (little_endian n v) [], length-little_endian n v)

little_endian-snoc :
    (n v : ℕ) → little_endian (suc n) v ≡ little_endian n v ++ ((v / 256 ^ n % 256) ∷ [])
unfolding little_endian
little_endian-snoc zero v = ap (λ x. x ∷ []) (omega arith)
little_endian-snoc (suc n) v =
    ap (λ r. (v % 256) ∷ r)
      (little_endian-snoc n (v / 256)
        ∙ rw (div-div-eq-div-mul v 256 (256 ^ n), pow-suc 256 n, mul_comm (256 ^ n) 256))

pub reverse-little_endian : (n v : ℕ) → reverse (little_endian n v) ≡ big_endian n v
unfolding big_endian
reverse-little_endian zero v = unfold little_endian in refl
reverse-little_endian (suc n) v =
    rw (little_endian-snoc n v, reverse-append (little_endian n v) ((v / 256 ^ n % 256) ∷ []))
      (ap (λ r. (v / 256 ^ n % 256) ∷ r) (reverse-little_endian n v))

from_little_endian-little_endian :
    (n v : ℕ) → v < 256 ^ n → from_little_endian (little_endian n v) ≡ v
unfolding little_endian from_little_endian
from_little_endian-little_endian zero v h = omega arith
from_little_endian-little_endian (suc n) v h =
    omega (arith, from_little_endian-little_endian n (v / 256) (omega (arith, pow-suc 256 n)))

-- Whatever the machine's byte order, a word goes out with its high byte first.
pub load_data-in_memory :
    (small : Bool) (n v : ℕ) → load_data small (in_memory small n v) ≡ big_endian n v
unfolding in_memory
load_data-in_memory true n v = rw load_data_small (reverse-little_endian n v)
load_data-in_memory false n v = rw load_data_big (reverse-little_endian n v)

-- `load_data` undoes itself.
load_data-load_data : (small : Bool) (bs : Bytes) → load_data small (load_data small bs) ≡ bs
load_data-load_data true bs = rw (load_data_small, load_data_small) (reverse-reverse bs)
load_data-load_data false bs = rw load_data_big (load_data_big bs)

from_memory-in_memory :
    (small : Bool) (n v : ℕ) → v < 256 ^ n → from_memory small (in_memory small n v) ≡ v
unfolding in_memory from_memory
from_memory-in_memory true n v h = from_little_endian-little_endian n v h
from_memory-in_memory false n v h =
    rw (reverse-reverse (little_endian n v)) (from_little_endian-little_endian n v h)

-- A word that goes over the wire arrives.
pub from_memory-load_data :
    (small : Bool) (n v : ℕ)
    → v < 256 ^ n
    → from_memory small (load_data small (load_data small (in_memory small n v))) ≡ v
from_memory-load_data small n v h = rw load_data-load_data (from_memory-in_memory small n v h)

pub length-load_data_word :
    (small : Bool) (n v : ℕ) → length (load_data small (in_memory small n v)) ≡ n
length-load_data_word small n v = rw length-load_data (length-in_memory small n v)
