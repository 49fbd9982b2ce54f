-- ===== src/Buffer/FixBuffer.antt =====
-- core/src/buffer.c: FIX_BUFFER.
pub mod Laws
use rushkit.Base.{
  ℕ, zero, suc, ◌+◌, ◌-◌, ◌%◌, ◌^◌, Bool, true, false, List, [], ◌∷◌, ◌++◌, Option, none, some,
  Bytes, length, leb, if◌then◌else◌,
}
use rushkit.Base.Outcome.{Outcome, ok, fault, assert, ◌>>=◌, ◌>>◌}
use rushkit.Pool.{Pool, rt_pool_alloc}

-- `stored` are the bytes of `buf` up to `current`, and `pooled` says that `ppool` is not NULL.
pub record FixBuffer : Type 0 where
  pub stored : Bytes
  pub capacity : ℕ
  pub pooled : Bool

-- Everything is set to zero.
unfoldable pub rtmp_fwb_init : FixBuffer
rtmp_fwb_init = record { stored = []; capacity = 0; pooled = false }

-- With a pool (`some`) the memory comes from it, without one from `malloc`.
unfoldable pub rtmp_fwb_reset : Option Pool → ℕ → FixBuffer × Option Pool
rtmp_fwb_reset none cap = (record { stored = []; capacity = cap; pooled = false }, none)
rtmp_fwb_reset (some pool) cap =
    (record { stored = []; capacity = cap; pooled = true }, some (rt_pool_alloc pool cap).1)

-- `free` of memory that belongs to a pool is a fault.
unfoldable pub rtmp_fwb_free : FixBuffer → Outcome FixBuffer
unfolding rtmp_fwb_init
rtmp_fwb_free b = if b.pooled then fault else ok rtmp_fwb_init

unfoldable pub rtmp_fwb_get_space : FixBuffer → ℕ
rtmp_fwb_get_space b = b.capacity - length b.stored

-- The `len` bytes at `src` are the list.
unfoldable pub rtmp_fwb_write : FixBuffer → Bytes → Outcome (ℕ × FixBuffer)
unfolding rtmp_fwb_get_space
rtmp_fwb_write b src = do
  assert (leb (length src) (rtmp_fwb_get_space b))
  ok (length src, record b { stored = b.stored ++ src })

unfoldable pub rtmp_fwb_get_value : FixBuffer → Bytes × ℕ
rtmp_fwb_get_value b = (b.stored, length b.stored)
