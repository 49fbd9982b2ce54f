-- ===== src/Buffer/ReadBuffer.antt =====
-- core/src/buffer.c: READ_BUFFER. A pointer into the data is an offset from `buf`, and a pointer that
-- a routine returns is the bytes from there on.
pub mod Laws
use rushkit.Base.{
  ℕ, zero, suc, ◌+◌, ◌-◌, ◌*◌, ◌%◌, ◌^◌, Bool, true, false, List, [], ◌∷◌, Option, none, some,
  Bytes, length, take, drop, ltb, leb, ◌==◌, if◌then◌else◌,
}
use rushkit.Base.Outcome.{Outcome, ok, fault, split_at, assert, ◌>>=◌, ◌>>◌}
use rushkit.Word.{load_data, load_data_reverse, from_memory, is_negative_short}

-- `buf` is the memory at `pbuffer->buf`, of which the first `len` bytes are the data.
pub record ReadBuffer : Type 0 where
  pub buf : Bytes
  pub current : ℕ
  pub len : ℕ
  pub need_more : ℕ

unfoldable pub rtmp_rb_init : Bytes → ℕ → ReadBuffer
rtmp_rb_init mem alen = record { buf = mem; current = 0; len = alen; need_more = 0 }

-- `current` is never past `len`.
unfoldable pub rtmp_rb_get_space : ReadBuffer → ℕ
rtmp_rb_get_space b = b.len - b.current

-- The loop over `p` from `current`, with `n` bytes left: the distance to the first byte `c`.
unfoldable pub find_byte : ℕ → Bytes → ℕ → Option ℕ
find_byte zero p c = none
find_byte (suc n) [] c = none
find_byte (suc n) (x ∷ p) c =
    let more = find_byte n p c in
    if x == c then some 0 else elim more [ none ↦ none | some k ↦ some (k + 1) ]

-- The pointer with `*cLen`, or NULL.
unfoldable pub rtmp_rb_read_until : ReadBuffer → ℕ → Option (Bytes × ℕ) × ReadBuffer
unfolding find_byte rtmp_rb_get_space
rtmp_rb_read_until b c = elim (find_byte (rtmp_rb_get_space b) (drop b.current b.buf) c) [
  | none ↦ (none, record b { need_more = b.len })
  | some k ↦ (some (drop b.current b.buf, k), record b { current = b.current + k + 1 })
]

unfoldable pub rtmp_rb_read_e : ReadBuffer → ℕ → Outcome (Bytes × ReadBuffer)
unfolding rtmp_rb_get_space
rtmp_rb_read_e b nlen = do
  assert (leb nlen (rtmp_rb_get_space b))
  ok (drop b.current b.buf, record b { current = b.current + nlen })

-- The `n` bytes that `rtmp_rb_read_e(pbuffer, n)` points to.
unfoldable pub read_bytes : ReadBuffer → ℕ → Outcome (Bytes × ReadBuffer)
read_bytes b n = do (src, b') ← rtmp_rb_read_e b n; (bs, _) ← split_at n src; ok (bs, b')

-- TRUE where `sz` bytes are there; otherwise the number of those that are missing is noted.
unfoldable pub rtmp_rb_assert_size : ReadBuffer → ℕ → Bool × ReadBuffer
rtmp_rb_assert_size b sz =
    if ltb b.len (sz + b.current)
    then (false, record b { need_more = sz + b.current - b.len })
    else (true, b)

-- `rtmp_rb_read_e(pbuffer, *strlen + 2) + 2`. A negative length, which passes the assert, moves
-- `current` back; a pointer in front of `buf` is a fault.
unfoldable pub string_at : ReadBuffer → ℕ → Outcome (Bytes × ℕ × ReadBuffer)
unfolding rtmp_rb_read_e
string_at b strlen =
    let back = 2 ^ 16 - strlen in
    let backward : Outcome (Bytes × ℕ × ReadBuffer) =
      if leb back (b.current + 2)
      then ok (drop (b.current + 2) b.buf, strlen, record b { current = b.current + 2 - back })
      else fault in
    let forward : Outcome (Bytes × ℕ × ReadBuffer) =
      rtmp_rb_read_e b (strlen + 2) >>= (λ (p, b'). ok (drop 2 p, strlen, b')) in
    if is_negative_short strlen then backward else forward

-- `small` is the machine's byte order.
module _ (small : Bool) where
  unfoldable pub rtmp_rb_read_double_e : ReadBuffer → Outcome (ℕ × ReadBuffer)
  rtmp_rb_read_double_e b = do
    (src, b') ← read_bytes b 8
    ok (from_memory small (load_data small src), b')

  unfoldable pub rtmp_rb_read_short_e : ReadBuffer → Outcome (ℕ × ReadBuffer)
  rtmp_rb_read_short_e b = do
    (src, b') ← read_bytes b 2
    ok (from_memory small (load_data small src), b')

  unfoldable pub rtmp_rb_read_int_e : ReadBuffer → Outcome (ℕ × ReadBuffer)
  rtmp_rb_read_int_e b = do
    (src, b') ← read_bytes b 4
    ok (from_memory small (load_data small src), b')

  unfoldable pub rtmp_rb_read_reverse_int_e : ReadBuffer → Outcome (ℕ × ReadBuffer)
  rtmp_rb_read_reverse_int_e b = do
    (src, b') ← read_bytes b 4
    ok (from_memory small (load_data_reverse small src), b')

  unfoldable pub rtmp_rb_read_string_e : ReadBuffer → Outcome (Bytes × ℕ × ReadBuffer)
  unfolding string_at rtmp_rb_assert_size
  rtmp_rb_read_string_e b = do
    (strlen, b₁) ← rtmp_rb_read_short_e (rtmp_rb_assert_size b 2).1
    string_at (record b₁ { current = b₁.current - 2 }) strlen

unfoldable pub rtmp_rb_read_byte_e : ReadBuffer → Outcome (ℕ × ReadBuffer)
rtmp_rb_read_byte_e b = do (src, b') ← read_bytes b 1; elim src [ [] ↦ fault | x ∷ _ ↦ ok (x, b') ]

-- `(src[0] << 16) + (src[1] << 8) + src[2]`
unfoldable pub medium_int : Bytes → Outcome ℕ
medium_int (a ∷ b ∷ c ∷ _) = ok (a * 2 ^ 16 + b * 2 ^ 8 + c)
medium_int _ = fault

unfoldable pub rtmp_rb_read_medium_int_e : ReadBuffer → Outcome (ℕ × ReadBuffer)
unfolding medium_int
rtmp_rb_read_medium_int_e b = do (src, b') ← read_bytes b 3; e ← medium_int src; ok (e, b')

-- `*dest`, the number of bytes and the buffer.
unfoldable pub rtmp_rb_read : ReadBuffer → ℕ → Bytes × ℕ × ReadBuffer
unfolding rtmp_rb_get_space
rtmp_rb_read b nlen =
    let sz_now = rtmp_rb_get_space b in
    if leb nlen sz_now
    then (drop b.current b.buf, nlen, record b { current = b.current + nlen })
    else (drop b.current b.buf, sz_now, record b { current = b.len })
