-- ===== src/Buffer/FixBuffer/Laws.antt =====
-- A buffer of a fixed size never holds more than its capacity.
use rushkit.Base.{
  ℕ, ◌+◌, ◌≤◌, ◌<◌, ◌≡◌, refl, ◌++◌, none, some, arith, Bytes, length, length-append,
}
use rushkit.Base.Outcome.{ok, abort, fault}
use rushkit.Pool.{Pool}
use rushkit.Buffer.FixBuffer.{
  FixBuffer, rtmp_fwb_init, rtmp_fwb_reset, rtmp_fwb_free, rtmp_fwb_get_space, rtmp_fwb_write,
}

abbrev pub IsValid : FixBuffer → Type 0
IsValid b = length b.stored ≤ b.capacity

-- On a buffer within its capacity, a write of at most the free space appends the bytes, returns their number, takes as much from the
-- free space and keeps the buffer within its capacity; the assert fails on a longer one.
pub rtmp_fwb_write_lem :
    (b : FixBuffer) (src : Bytes)
    → IsValid b
    → (length src ≤ rtmp_fwb_get_space b
        → let b' = record b { stored = b.stored ++ src } in
          (rtmp_fwb_write b src ≡ ok (length src, b'))
          × IsValid b'
          × (rtmp_fwb_get_space b' + length src ≡ rtmp_fwb_get_space b))
      × (rtmp_fwb_get_space b < length src → rtmp_fwb_write b src ≡ abort)
unfolding rtmp_fwb_write
rtmp_fwb_write_lem b src v =
    (λ h. ground (arith, length-append {0} b.stored src), λ h. ground arith)

-- `rtmp_fwb_free` releases the memory exactly when it is not its own: after a reset with a pool it
-- frees memory of the pool, a fault, and after one without it forgets the buffer.
pub rtmp_fwb_free-rtmp_fwb_reset :
    (pool : Pool) (cap : ℕ)
    → (rtmp_fwb_free (rtmp_fwb_reset (some pool) cap).0 ≡ fault)
      × (rtmp_fwb_free (rtmp_fwb_reset none cap).0 ≡ ok rtmp_fwb_init)
unfolding rtmp_fwb_free rtmp_fwb_reset
rtmp_fwb_free-rtmp_fwb_reset pool cap = (refl, refl)
