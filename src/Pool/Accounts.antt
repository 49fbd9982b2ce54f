-- ===== src/Pool/Accounts.antt =====
-- The counters of a pool, and its reset.
use rushkit.Base.{ℕ, ◌+◌, ◌%◌, ◌≡◌, List, [], ◌∷◌, arith}
use rushkit.Pool.{
  Pool, pool_granu, uint_mod, new_trunk_size, rt_pool_alloc, rt_pool_init, release_trunks,
  rt_pool_reset,
}
use rushkit.Pool.Blocks.{IsValid}

unfoldable pub total : List ℕ → ℕ
total [] = 0
total (c ∷ ts) = c + total ts

-- The root trunk has the size that `rt_pool_init` gives it.
abbrev pub HasRoot : Pool → Type 0
HasRoot p = release_trunks p.trunks ≡ pool_granu ∷ []

-- `alloc_space` is the memory that the pool has, modulo 2 ^ 32.
abbrev pub Counts : Pool → Type 0
Counts p = p.alloc_space ≡ total p.trunks % uint_mod

release_trunks-cons :
    (c : ℕ) (ts : List ℕ) (root : ℕ)
    → release_trunks ts ≡ root ∷ []
    → release_trunks (c ∷ ts) ≡ root ∷ []
unfolding release_trunks
release_trunks-cons c [] root h = cc
release_trunks-cons c (d ∷ ts) root h = h

-- `rt_pool_reset` leaves a pool that has its root trunk as `rt_pool_init` does, and counts its memory.
pub rt_pool_reset_lem :
    (p : Pool)
    → HasRoot p
    → (rt_pool_reset p ≡ record (rt_pool_init p) { alloc_space = pool_granu })
      × IsValid (rt_pool_reset p)
      × Counts (rt_pool_reset p)
unfolding rt_pool_reset rt_pool_init total
rt_pool_reset_lem p h = ground arith

-- `rt_pool_alloc` keeps the root trunk and the right count of the memory, and adds `size` to
-- `used_size`, modulo 2 ^ 32.
pub rt_pool_alloc-Counts :
    (p : Pool) (size : ℕ)
    → HasRoot p
    → Counts p
    → let p' = (rt_pool_alloc p size).1 in
      HasRoot p' × Counts p' × (p'.used_size ≡ (p.used_size + size) % uint_mod)
unfolding rt_pool_alloc total
rt_pool_alloc-Counts p size r c =
    ground (arith, release_trunks-cons (new_trunk_size size) p.trunks pool_granu r)
