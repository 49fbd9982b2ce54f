-- ===== src/Examples/Memory.antt =====
-- core/src/rt_pool.c and core/src/buffer.c on concrete memory.
use rushkit.Base.{ℕ, ◌+◌, ◌%◌, ◌^◌, ◌≡◌, refl, [], ◌∷◌, some, arith, All}
use rushkit.Base.Outcome.{ok}
use rushkit.Pool.{Pool, uint_mod, rt_pool_alloc, rt_pool_init, release_trunks}
use rushkit.Pool.Blocks as Blocks
use rushkit.Pool.Blocks.{
  max_size, Block, IsInside, alloc_all, AreDisjoint, rt_pool_init-IsValid,
  rt_pool_alloc-AreDisjoint, rt_pool_alloc_too_large,
}
use rushkit.Pool.Accounts.{total, HasRoot, Counts, rt_pool_alloc-Counts}
use rushkit.Buffer.ReadBuffer.{ReadBuffer}
use rushkit.Buffer.WriteBuffer.{WriteBuffer, rtmp_wb_write}
use rushkit.Buffer.WriteBuffer.Laws as Written
use rushkit.Buffer.WriteBuffer.Laws.{Appended, rtmp_wb_write_lem}
use rushkit.Buffer.FixBuffer.{FixBuffer, rtmp_fwb_reset}

-- Memory as it is before `rt_pool_init`.
abbrev raw : Pool
raw = record { trunks = []; curr_used = 0; curr_capacity = 0; used_size = 0; alloc_space = 0 }

-- A pool after `rt_pool_init` and `rt_pool_reset`.
abbrev pub pool : Pool
pool = record {
  trunks = 2048 ∷ [];
  curr_used = 0;
  curr_capacity = 2048;
  used_size = 0;
  alloc_space = 2048;
}

pub pool-IsValid : Blocks.IsValid pool
unfolding rt_pool_init
pool-IsValid = ground (arith, rt_pool_init-IsValid raw)

rt_pool_alloc-AreDisjoint_example :
    let (bs, p') = alloc_all pool [] (100 ∷ 3000 ∷ 7 ∷ []) in
    All (IsInside p') bs × AreDisjoint bs × Blocks.IsValid p'
rt_pool_alloc-AreDisjoint_example =
    rt_pool_alloc-AreDisjoint pool (100 ∷ 3000 ∷ 7 ∷ []) pool-IsValid
      (omega arith, (omega arith, (omega arith, tt)))

rt_pool_alloc_too_large_example :
    let (q, p') = rt_pool_alloc pool (2 ^ 31) in
    ¬ IsInside p' (record { at = q; size = 2 ^ 31 }) × (¬ Blocks.IsValid p')
rt_pool_alloc_too_large_example =
    rt_pool_alloc_too_large pool (2 ^ 31) pool-IsValid (omega arith) (omega arith) (omega arith)

pool-HasRoot : HasRoot (rt_pool_alloc pool 5000).1
unfolding release_trunks rt_pool_alloc
pool-HasRoot = refl

pool-Counts : Counts (rt_pool_alloc pool 5000).1
unfolding total rt_pool_alloc
pool-Counts = refl

rt_pool_alloc-Counts_example :
    let p = (rt_pool_alloc pool 5000).1 in
    let p' = (rt_pool_alloc p 5000).1 in
    HasRoot p' × Counts p' × (p'.used_size ≡ (p.used_size + 5000) % uint_mod)
rt_pool_alloc-Counts_example =
    rt_pool_alloc-Counts (rt_pool_alloc pool 5000).1 5000 pool-HasRoot pool-Counts

-- Five bytes, of which one has been read.
abbrev input : ReadBuffer
input = record { buf = 1 ∷ 2 ∷ 3 ∷ 4 ∷ 5 ∷ []; current = 1; len = 5; need_more = 0 }

-- A writer with four bytes of room, of which one is taken.
abbrev pub output : WriteBuffer
output = record {
  buf = record { trunk = 0; offset = 0 };
  room = 4;
  written = 9 ∷ [];
  capacity = 4;
  pool = pool;
}

pub output-IsValid : Written.IsValid output
output-IsValid = record {
  some_room = omega arith;
  is_int = omega arith;
  held = refl;
  within = omega arith;
  pool_valid = pool-IsValid;
}

rtmp_wb_write_lem_example :
    (out : ℕ × WriteBuffer) × (rtmp_wb_write output (1 ∷ 2 ∷ 3 ∷ 4 ∷ []) ≡ ok out)
    × Appended output (1 ∷ 2 ∷ 3 ∷ 4 ∷ []) out
rtmp_wb_write_lem_example =
    rtmp_wb_write_lem output (1 ∷ 2 ∷ 3 ∷ 4 ∷ []) output-IsValid (omega arith)

-- A buffer of four bytes with one in it.
abbrev fixed : FixBuffer
fixed = record (rtmp_fwb_reset (some pool) 4).0 { stored = 1 ∷ [] }
