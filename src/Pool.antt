-- ===== src/Pool.antt =====
-- core/src/rt_pool.c: memory from trunks, given back all at once.
pub mod Blocks
pub mod Accounts
use rushkit.Base.{
  ℕ, zero, suc, ◌+◌, ◌-◌, ◌*◌, ◌%◌, ◌^◌, Bool, List, [], ◌∷◌, length, ltb, leb, ◌==◌, ◌||◌, not,
  if◌then◌else◌,
}
use rushkit.Base.Outcome.{Outcome, ok, fault, ◌>>=◌}
use rushkit.Word.{is_negative_int}

abbrev pub pool_granu : ℕ
pool_granu = 2048

abbrev pub pool_extra_space : ℕ
pool_extra_space = 2048

abbrev pub uint_mod : ℕ
uint_mod = 2 ^ 32

-- POOL. `trunks` are the sizes of the trunks from `curr` along `prev` to `root_trunk`. The ints are
-- 32-bit patterns. `list_head` and `list_tail` are only ever set to NULL, and left out.
pub record Pool : Type 0 where
  pub trunks : List ℕ
  pub curr_used : ℕ
  pub curr_capacity : ℕ
  pub used_size : ℕ
  pub alloc_space : ℕ

-- A pointer into the pool: the number of the trunk, counted from the root, and the offset in it.
pub record Pointer : Type 0 where
  pub trunk : ℕ
  pub offset : ℕ

-- The number of trunks behind `curr`, which is the number of `curr`.
abbrev pub curr_trunk : List ℕ → ℕ
curr_trunk ts = length ts - 1

-- `size + POOL_EXTRA_SPACE` is an unsigned int, and is put into an int.
unfoldable pub new_trunk_size : ℕ → ℕ
new_trunk_size size =
    let sum = (size + pool_extra_space) % uint_mod in
    if is_negative_int sum || ltb sum pool_granu then pool_granu else sum

-- `size` is an unsigned int. `malloc` is taken to succeed.
unfoldable pub rt_pool_alloc : Pool → ℕ → Pointer × Pool
unfolding new_trunk_size
rt_pool_alloc pool size =
    let used = (pool.used_size + size) % uint_mod in
    let new_size = new_trunk_size size in
    if leb size ((pool.curr_capacity + uint_mod - pool.curr_used) % uint_mod)
    then (
      record { trunk = curr_trunk pool.trunks; offset = pool.curr_used },
      record pool { used_size = used; curr_used = (pool.curr_used + size) % uint_mod },
    )
    else (
      record { trunk = curr_trunk (new_size ∷ pool.trunks); offset = 0 },
      record {
        trunks = new_size ∷ pool.trunks;
        curr_used = size;
        curr_capacity = new_size;
        used_size = used;
        alloc_space = (pool.alloc_space + new_size) % uint_mod;
      },
    )

-- The field `alloc_space` is not set.
unfoldable pub rt_pool_init : Pool → Pool
rt_pool_init pool = record pool {
  trunks = pool_granu ∷ [];
  curr_used = 0;
  curr_capacity = pool_granu;
  used_size = 0;
}

-- The size of a trunk that has a number.
abbrev pub trunk_size : List ℕ → ℕ → ℕ
trunk_size [] i = 0
trunk_size (c ∷ ts) i = if i == length ts then c else trunk_size ts i

-- `n * sz` is a size_t for `memset` and is cut to an unsigned int for `rt_pool_alloc`.
unfoldable pub rt_pool_allocz : Pool → ℕ → ℕ → Outcome (Pointer × Pool)
rt_pool_allocz pool n sz =
    let (p, pool') = rt_pool_alloc pool (n * sz % uint_mod) in
    if leb (p.offset + n * sz) (trunk_size pool'.trunks p.trunk) then ok (p, pool') else fault

-- `while(pTrunk != &(ppool->root_trunk))`: the root stands last.
unfoldable pub release_trunks : List ℕ → List ℕ
release_trunks [] = []
release_trunks (c ∷ []) = c ∷ []
release_trunks (c ∷ d ∷ ts) = release_trunks (d ∷ ts)

unfoldable pub rt_pool_reset : Pool → Pool
unfolding release_trunks
rt_pool_reset pool = record {
  trunks = release_trunks pool.trunks;
  curr_used = 0;
  curr_capacity = pool_granu;
  used_size = 0;
  alloc_space = pool_granu;
}

-- The root trunk is released last.
unfoldable pub rt_pool_free : Pool → Pool
unfolding rt_pool_reset
rt_pool_free pool = record (rt_pool_reset pool) { trunks = [] }
