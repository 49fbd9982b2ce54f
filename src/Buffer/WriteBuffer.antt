-- ===== src/Buffer/WriteBuffer.antt =====
-- core/src/buffer.c: WRITE_BUFFER. Its memory comes from a pool, which each operation passes on.
pub mod Laws
use rushkit.Base.{
  ℕ, zero, suc, ◌+◌, ◌-◌, ◌*◌, ◌/◌, ◌%◌, ◌^◌, Bool, true, false, List, [], ◌∷◌, ◌++◌, Bytes, length,
  take, drop, ltb, leb, ◌==◌, if◌then◌else◌,
}
use rushkit.Base.Outcome.{Outcome, ok, fault, out_of_fuel, split_at, ◌>>=◌, ◌>>◌}
use rushkit.Word.{int_less, load_data, load_data_reverse, in_memory}
use rushkit.Pool.{Pool, Pointer, rt_pool_alloc}

-- `buf` is the block that the pool gave, which was asked for `room` bytes, and `written` its bytes up to
-- `current`. `capacity` is an int.
pub record WriteBuffer : Type 0 where
  pub buf : Pointer
  pub room : ℕ
  pub written : Bytes
  pub capacity : ℕ
  pub pool : Pool

-- A block from the pool, with the size that it was asked for.
abbrev new_block : Pool → ℕ → Pointer × ℕ × Pool
new_block pool size = let (p, pool') = rt_pool_alloc pool size in (p, size, pool')

unfoldable pub rtmp_wb_init : Pool → ℕ → WriteBuffer
rtmp_wb_init pool capacity =
    let (p, room, pool') = new_block pool capacity in
    record { buf = p; room = room; written = []; capacity = capacity; pool = pool' }

unfoldable pub rtmp_wb_length : WriteBuffer → ℕ
rtmp_wb_length b = length b.written

unfoldable pub rtmp_wb_tell : WriteBuffer → ℕ
rtmp_wb_tell b = length b.written

unfoldable pub rtmp_wb_get_value : WriteBuffer → Bytes × ℕ
rtmp_wb_get_value b = (b.written, length b.written)

-- `while(sz_now + len > new_cap) new_cap *= 2` on fuel; `need` is the sum, an int like `new_cap`.
unfoldable pub double_until : ℕ → ℕ → ℕ → Outcome ℕ
double_until zero need new_cap = if int_less new_cap need then out_of_fuel else ok new_cap
double_until (suc fuel) need new_cap =
    let rest = double_until fuel need (new_cap * 2 % 2 ^ 32) in
    if int_less new_cap need then rest else ok new_cap

-- A `memcpy` that ends `n` bytes behind the start of the block.
unfoldable pub in_block : ℕ → WriteBuffer → Outcome WriteBuffer
in_block n b = if leb n b.room then ok b else fault

-- Doubling a capacity that is not 0 reaches `need` in fewer than `need` rounds, or overflows.
unfoldable pub grow : WriteBuffer → ℕ → Outcome WriteBuffer
unfolding double_until in_block
grow b need = do
  new_cap ← double_until need need (b.capacity * 2 % 2 ^ 32)
  let (p, room, pool') = new_block b.pool new_cap
  in_block (length b.written) (record b { buf = p; room = room; capacity = new_cap; pool = pool' })

-- The `len` bytes at `src` are the list; what is returned is their number.
unfoldable pub rtmp_wb_write : WriteBuffer → Bytes → Outcome (ℕ × WriteBuffer)
unfolding rtmp_wb_length in_block
rtmp_wb_write b src = do
  let sz_now = rtmp_wb_length b
  let len = length src
  let need = (sz_now + len) % 2 ^ 32
  b₁ ← if int_less b.capacity need then grow b need else ok b
  b₂ ← in_block (sz_now + len) b₁
  ok (len, record b₂ { written = b₂.written ++ src })

-- `small` is the machine's byte order. A long is cut to its low bytes by `in_memory`: on the
-- little-endian machine those are the first in memory.
module _ (small : Bool) where
  unfoldable pub rtmp_wb_write_short : WriteBuffer → ℕ → Outcome (ℕ × WriteBuffer)
  rtmp_wb_write_short b src = rtmp_wb_write b (load_data small (in_memory small 2 src))

  unfoldable pub rtmp_wb_write_double : WriteBuffer → ℕ → Outcome (ℕ × WriteBuffer)
  rtmp_wb_write_double b src = rtmp_wb_write b (load_data small (in_memory small 8 src))

  -- The first four bytes in memory of the eight of a long.
  unfoldable pub rtmp_wb_write_reverse_int : WriteBuffer → ℕ → Outcome (ℕ × WriteBuffer)
  rtmp_wb_write_reverse_int b src =
      rtmp_wb_write b (load_data_reverse small (take 4 (in_memory small 8 src)))

  unfoldable pub rtmp_wb_write_int : WriteBuffer → ℕ → Outcome (ℕ × WriteBuffer)
  rtmp_wb_write_int b src = rtmp_wb_write b (load_data small (take 4 (in_memory small 8 src)))

  unfoldable pub rtmp_wb_write_string : WriteBuffer → Bytes → Outcome (ℕ × WriteBuffer)
  rtmp_wb_write_string b str = do
    (short_len, b') ← rtmp_wb_write_short b (length str % 2 ^ 16)
    (n, b'') ← rtmp_wb_write b' str
    ok (n + short_len, b'')

unfoldable pub rtmp_wb_write_byte : WriteBuffer → ℕ → Outcome (ℕ × WriteBuffer)
rtmp_wb_write_byte b src = rtmp_wb_write b (src ∷ [])

-- `e` is the 32-bit pattern of an int.
unfoldable pub rtmp_wb_write_medium_int : WriteBuffer → ℕ → Outcome (ℕ × WriteBuffer)
rtmp_wb_write_medium_int b e =
    rtmp_wb_write b ((e / 2 ^ 16 % 256) ∷ (e / 2 ^ 8 % 256) ∷ (e % 256) ∷ [])
