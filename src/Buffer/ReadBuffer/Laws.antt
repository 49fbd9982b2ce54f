-- ===== src/Buffer/ReadBuffer/Laws.antt =====
-- A read buffer as the bytes that are still to be read.
use rushkit.Base.{
  ℕ, min, zero, suc, ◌+◌, ◌-◌, ◌*◌, ◌^◌, ◌≤◌, ◌<◌, ◌≡◌, ◌≢◌, refl, sym, ap, ◌∙◌, Bool, true, false,
  [], ◌∷◌, ◌++◌, none, some, append_assoc, arith, Bytes, length, length-append, lengths, take, drop,
  length-take, length-drop, take-append-drop, All, take-append_length, take-take_of_le,
  take_of_length-le, drop_of_length-le, drop-append_length, le→leb,
}
use rushkit.Base.Outcome.{ok, abort, split_at-append}
use rushkit.Word.{load_data, from_memory}
use rushkit.Buffer.ReadBuffer.{
  ReadBuffer, rtmp_rb_init, rtmp_rb_get_space, find_byte, rtmp_rb_read_until, rtmp_rb_read_e,
  read_bytes, rtmp_rb_read_int_e, rtmp_rb_read_byte_e, rtmp_rb_read_medium_int_e,
  rtmp_rb_assert_size, rtmp_rb_read,
}

pub record IsValid (b : ReadBuffer) : Type 0 where
  pub behind : b.current ≤ b.len
  pub inside : b.len ≤ length b.buf

-- The data that is still to be read.
abbrev pub remaining : ReadBuffer → Bytes
remaining b = take (b.len - b.current) (drop b.current b.buf)

abbrev pub advance : ReadBuffer → ℕ → ReadBuffer
advance b n = record b { current = b.current + n }

drop-nil : (n : ℕ) → drop {A = ℕ} n [] ≡ []
drop-nil zero = refl
drop-nil (suc n) = refl

drop-add : (n m : ℕ) (xs : Bytes) → drop (n + m) xs ≡ drop m (drop n xs)
drop-add zero m xs = ap (λ k. drop k xs) (omega arith)
drop-add (suc n) m [] = drop-nil (suc n + m) ∙ sym (drop-nil m)
drop-add (suc n) m (x ∷ xs) =
    let e : suc n + m ≡ suc (n + m) = omega arith in ap (λ k. drop k (x ∷ xs)) e ∙ drop-add n m xs

pub length-remaining : {b : ReadBuffer} → IsValid b → length (remaining b) ≡ rtmp_rb_get_space b
unfolding rtmp_rb_get_space
length-remaining {b} v =
    omega
      (arith, length-take (b.len - b.current) (drop b.current b.buf), length-drop b.current b.buf)

pub rtmp_rb_init_lem :
    (mem : Bytes) (n : ℕ)
    → n ≤ length mem
    → IsValid (rtmp_rb_init mem n) × (remaining (rtmp_rb_init mem n) ≡ take n mem)
unfolding rtmp_rb_init
rtmp_rb_init_lem mem n h = ground arith

-- What lies behind `current`: what is still to be read, and the memory behind the data.
module _ {b : ReadBuffer} (v : IsValid b) (xs rest : Bytes) (e : remaining b ≡ xs ++ rest) where
  open b use {buf, current, len}

  behind_current : drop current buf ≡ xs ++ (rest ++ drop (len - current) (drop current buf))
  behind_current =
      sym (take-append-drop (len - current) (drop current buf))
      ∙ ap (λ t. t ++ drop (len - current) (drop current buf)) e
      ∙ append_assoc xs rest _

  length_parts : length xs + length rest ≡ len - current
  length_parts = omega (
    arith,
    length-take (len - current) (drop current buf),
    length-drop current buf,
    ap length e,
    length-append {0} xs rest,
  )

  pub IsValid-advance : IsValid (advance b (length xs))
  IsValid-advance = omega (arith, length_parts)

  pub remaining-advance : remaining (advance b (length xs)) ≡ rest
  remaining-advance =
      let left : len - (current + length xs) ≡ length rest = omega (arith, length_parts) in
      rw
        (
          drop-add current (length xs) buf,
          left,
          behind_current,
          drop-append_length xs (rest ++ drop (len - current) (drop current buf)),
        )
        (take-append_length rest _)

  pub rtmp_rb_read_e-ok :
      rtmp_rb_read_e b (length xs) ≡ ok (drop current buf, advance b (length xs))
  unfolding rtmp_rb_read_e rtmp_rb_get_space
  rtmp_rb_read_e-ok = rw (le→leb (length xs) (len - current) (omega (arith, length_parts)))

  pub read_bytes-ok : read_bytes b (length xs) ≡ ok (xs, advance b (length xs))
  unfolding read_bytes
  read_bytes-ok =
      rw rtmp_rb_read_e-ok (rw behind_current (rw (split_at-append (length xs) xs _ refl)))

  abbrev pub Reads : ℕ → Type 0
  Reads n =
      (read_bytes b n ≡ ok (xs, advance b n))
      × IsValid (advance b n)
      × (remaining (advance b n) ≡ rest)

  pub reads : (n : ℕ) → length xs ≡ n → Reads n
  reads n l = rw (← l) (read_bytes-ok, IsValid-advance, remaining-advance)

-- On a valid buffer a read of `n` bytes returns the next `n` and leaves a valid buffer with those
-- that follow; where fewer than `n` are left, the assert fails.
pub read_bytes_lem :
    (b : ReadBuffer) (n : ℕ)
    → IsValid b
    → (n ≤ rtmp_rb_get_space b
        → (read_bytes b n ≡ ok (take n (remaining b), advance b n))
          × IsValid (advance b n)
          × (remaining (advance b n) ≡ drop n (remaining b)))
      × (rtmp_rb_get_space b < n → read_bytes b n ≡ abort)
read_bytes_lem b n v =
    (λ h. enough h, λ h. unfold rtmp_rb_get_space read_bytes rtmp_rb_read_e in ground arith)
  where
    enough :
        n ≤ rtmp_rb_get_space b
        → (read_bytes b n ≡ ok (take n (remaining b), advance b n))
          × IsValid (advance b n)
          × (remaining (advance b n) ≡ drop n (remaining b))
    enough h =
        reads v (take n (remaining b)) (drop n (remaining b))
          (sym (take-append-drop n (remaining b))) n
          (omega (arith, length-take n (remaining b), length-remaining v))

-- The typed reads take the bytes in front.
module _ {b : ReadBuffer} (v : IsValid b) where
  pub rtmp_rb_read_byte_e-ok :
      (x : ℕ) (rest : Bytes) → remaining b ≡ x ∷ rest → rtmp_rb_read_byte_e b ≡ ok (x, advance b 1)
  unfolding rtmp_rb_read_byte_e
  rtmp_rb_read_byte_e-ok x rest e = rw ((reads v (x ∷ []) rest e 1 refl).0)

  pub rtmp_rb_read_medium_int_e-ok :
      (x y z : ℕ) (rest : Bytes)
      → remaining b ≡ x ∷ y ∷ z ∷ rest
      → rtmp_rb_read_medium_int_e b ≡ ok (x * 2 ^ 16 + y * 2 ^ 8 + z, advance b 3)
  unfolding rtmp_rb_read_medium_int_e
  rtmp_rb_read_medium_int_e-ok x y z rest e = rw ((reads v (x ∷ y ∷ z ∷ []) rest e 3 refl).0)

  pub rtmp_rb_read_int_e-ok :
      (small : Bool) (bs rest : Bytes)
      → remaining b ≡ bs ++ rest
      → length bs ≡ 4
      → rtmp_rb_read_int_e small b ≡ ok (from_memory small (load_data small bs), advance b 4)
  unfolding rtmp_rb_read_int_e
  rtmp_rb_read_int_e-ok small bs rest e l = rw ((reads v bs rest e 4 l).0)

-- On a valid buffer `rtmp_rb_assert_size` answers whether `sz` bytes are left; if not, `need_more` is the number of
-- those that are missing, and nothing else of the buffer changes.
pub rtmp_rb_assert_size_lem :
    (b : ReadBuffer) (sz : ℕ)
    → IsValid b
    → (sz ≤ rtmp_rb_get_space b → rtmp_rb_assert_size b sz ≡ (true, b))
      × (rtmp_rb_get_space b < sz
          → rtmp_rb_assert_size b sz ≡ (false, record b { need_more = sz - rtmp_rb_get_space b }))
unfolding rtmp_rb_assert_size rtmp_rb_get_space
rtmp_rb_assert_size_lem b sz v = (λ h. ground arith, λ h. ground arith)

-- On a valid buffer `rtmp_rb_read` takes `nlen` bytes or as many as are left, and leaves a valid buffer with those that
-- follow.
pub rtmp_rb_read_lem :
    (b : ReadBuffer) (nlen : ℕ)
    → IsValid b
    → let (p, n, b') = rtmp_rb_read b nlen in
      (n ≡ min nlen (rtmp_rb_get_space b))
      × (take n p ≡ take nlen (remaining b))
      × IsValid b'
      × (remaining b' ≡ drop nlen (remaining b))
unfolding rtmp_rb_read
rtmp_rb_read_lem b nlen v = ground (
  arith,
  read_bytes_lem b nlen v,
  take-take_of_le nlen (b.len - b.current) (drop b.current b.buf),
  take_of_length-le nlen (remaining b),
  drop_of_length-le nlen (remaining b),
  length-remaining v,
  left_none,
)
  where
    left_none : take (b.len - b.len) (drop b.len b.buf) ≡ []
    left_none = let e : b.len - b.len ≡ 0 = omega arith in ap (λ k. take k (drop b.len b.buf)) e

find_byte_found :
    (n : ℕ) (p xs rest : Bytes) (c : ℕ)
    → take n p ≡ xs ++ (c ∷ rest)
    → All (λ x. x ≢ c) xs
    → find_byte n p c ≡ some (length xs)
unfolding find_byte
find_byte_found zero p [] rest c e h = cc
find_byte_found zero p (x ∷ xs) rest c e h = cc
find_byte_found (suc n) [] [] rest c e h = cc
find_byte_found (suc n) [] (x ∷ xs) rest c e h = cc
find_byte_found (suc n) (y ∷ p) [] rest c e h = ground arith
find_byte_found (suc n) (y ∷ p) (x ∷ xs) rest c e h = ground (arith, find_byte_found n p xs rest c)

find_byte_missing :
    (n : ℕ) (p : Bytes) (c : ℕ) → All (λ x. x ≢ c) (take n p) → find_byte n p c ≡ none
unfolding find_byte
find_byte_missing zero p c h = refl
find_byte_missing (suc n) [] c h = refl
find_byte_missing (suc n) (y ∷ p) c h = ground (arith, find_byte_missing n p c)

-- On a valid buffer `rtmp_rb_read_until` finds the first byte `c`: it returns the number of bytes in front of it and
-- goes on behind it. Where there is none it returns NULL, and asks for as many bytes as the buffer
-- has.
pub rtmp_rb_read_until_lem :
    (b : ReadBuffer) (c : ℕ)
    → IsValid b
    → ((xs rest : Bytes)
        → remaining b ≡ xs ++ (c ∷ rest)
        → All (λ x. x ≢ c) xs
        → (rtmp_rb_read_until b c
            ≡ (some (drop b.current b.buf, length xs), advance b (length xs + 1)))
          × (remaining (advance b (length xs + 1)) ≡ rest))
      × (All (λ x. x ≢ c) (remaining b)
          → rtmp_rb_read_until b c ≡ (none, record b { need_more = b.len }))
unfolding rtmp_rb_read_until
rtmp_rb_read_until_lem b c v =
    (found, λ h. ground (arith, find_byte_missing (b.len - b.current) (drop b.current b.buf) c h))
  where
    found :
        (xs rest : Bytes)
        → remaining b ≡ xs ++ (c ∷ rest)
        → All (λ x. x ≢ c) xs
        → (rtmp_rb_read_until b c
            ≡ (some (drop b.current b.buf, length xs), advance b (length xs + 1)))
          × (remaining (advance b (length xs + 1)) ≡ rest)
    found xs rest e h =
        let e' : remaining b ≡ (xs ++ (c ∷ [])) ++ rest = e ∙ sym (append_assoc xs (c ∷ []) rest) in
        let l : length (xs ++ (c ∷ [])) ≡ length xs + 1 = omega lengths in
        let after : remaining (advance b (length xs + 1)) ≡ rest =
          rw l at (remaining-advance v (xs ++ (c ∷ [])) rest e') in
        (
          ground (arith, find_byte_found (b.len - b.current) (drop b.current b.buf) xs rest c e h),
          after,
        )
