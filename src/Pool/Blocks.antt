-- ===== src/Pool/Blocks.antt =====
-- What a pool hands out: blocks inside their trunks that do not overlap.
use rushkit.Base.{ℕ, ◌+◌, ◌-◌, ◌^◌, ◌≤◌, ◌<◌, ◌≡◌, ◌≢◌, ◌⊎◌, List, [], ◌∷◌, length, All, arith}
use rushkit.Pool.{
  Pool, Pointer, uint_mod, curr_trunk, new_trunk_size, rt_pool_alloc, rt_pool_init, trunk_size,
}

-- The sizes for which the size of a new trunk fits an int.
abbrev pub max_size : ℕ
max_size = 2 ^ 31 - 2048

pub record IsValid (p : Pool) : Type 0 where
  pub in_use : 0 < length p.trunks
  pub current : trunk_size p.trunks (curr_trunk p.trunks) ≡ p.curr_capacity
  pub within : p.curr_used ≤ p.curr_capacity
  pub fits : p.curr_capacity < uint_mod

pub rt_pool_init-IsValid : (p : Pool) → IsValid (rt_pool_init p)
unfolding rt_pool_init
rt_pool_init-IsValid p = ground arith

-- A block of `size` bytes.
pub record Block : Type 0 where
  pub at : Pointer
  pub size : ℕ

-- The block lies inside its trunk.
abbrev pub IsInside : Pool → Block → Type 0
IsInside p b = b.at.offset + b.size ≤ trunk_size p.trunks b.at.trunk

abbrev pub Disjoint : Block → Block → Type 0
Disjoint a b =
    (a.at.trunk ≢ b.at.trunk)
    ⊎ ((a.at.offset + a.size ≤ b.at.offset) ⊎ (b.at.offset + b.size ≤ a.at.offset))

-- The block was handed out before: it lies in an older trunk or in the used part of the current one.
abbrev IsTaken : Pool → Block → Type 0
IsTaken p b =
    (b.at.trunk < curr_trunk p.trunks)
    ⊎ ((b.at.trunk ≡ curr_trunk p.trunks) × (b.at.offset + b.size ≤ p.curr_used))

pub rt_pool_alloc-IsValid :
    {p : Pool} (size : ℕ) → IsValid p → size < max_size → IsValid (rt_pool_alloc p size).1
unfolding rt_pool_alloc
rt_pool_alloc-IsValid {p} size v h = ground arith

trunk_size-cons :
    (c : ℕ) (ts : List ℕ) (i : ℕ) → i < length ts → trunk_size (c ∷ ts) i ≡ trunk_size ts i
trunk_size-cons c ts i h = ground arith

abbrev new_block : Pool → ℕ → Block
new_block p size = record { at = (rt_pool_alloc p size).0; size = size }

module _ (p : Pool) (size : ℕ) (v : IsValid p) (small : size < max_size) where
  new_block-IsInside : IsInside (rt_pool_alloc p size).1 (new_block p size)
  unfolding rt_pool_alloc
  new_block-IsInside = ground arith

  new_block-IsTaken : IsTaken (rt_pool_alloc p size).1 (new_block p size)
  unfolding rt_pool_alloc
  new_block-IsTaken = ground arith

  old_block_lem :
      (b : Block)
      → IsTaken p b
      → IsInside p b
      → IsTaken (rt_pool_alloc p size).1 b
        × IsInside (rt_pool_alloc p size).1 b
        × Disjoint (new_block p size) b
  unfolding rt_pool_alloc
  old_block_lem b t i = ground (arith, trunk_size-cons (new_trunk_size size) p.trunks b.at.trunk)

-- A sequence of calls of `rt_pool_alloc`: the blocks that it hands out, the newest first, in front
-- of those of earlier calls.
pub alloc_all : Pool → List Block → List ℕ → List Block × Pool
alloc_all p bs [] = (bs, p)
alloc_all p bs (size ∷ sizes) = alloc_all (rt_pool_alloc p size).1 (new_block p size ∷ bs) sizes

abbrev pub AreDisjoint : List Block → Type 0
AreDisjoint [] = Unit
AreDisjoint (b ∷ bs) = All (Disjoint b) bs × AreDisjoint bs

abbrev Holds : Pool → Block → Type 0
Holds p b = IsTaken p b × IsInside p b

old_blocks_lem :
    (p : Pool) (size : ℕ)
    → IsValid p
    → size < max_size
    → (bs : List Block) → All (Holds p) bs
    → All (Holds (rt_pool_alloc p size).1) bs × All (Disjoint (new_block p size)) bs
old_blocks_lem p size v l [] h = (tt, tt)
old_blocks_lem p size v l (b ∷ bs) (h, hs) =
    let (t, i, d) = old_block_lem p size v l b h.0 h.1 in
    let (r, e) = old_blocks_lem p size v l bs hs in (((t, i), r), (d, e))

alloc_all_lem :
    (sizes : List ℕ) (p : Pool) (bs : List Block)
    → IsValid p
    → All (λ s. s < max_size) sizes
    → All (Holds p) bs
    → AreDisjoint bs
    → let (bs', p') = alloc_all p bs sizes in All (Holds p') bs' × AreDisjoint bs' × IsValid p'
unfolding alloc_all
alloc_all_lem [] p bs v h hs d = (hs, d, v)
alloc_all_lem (size ∷ sizes) p bs v (h, l) hs d =
    let (r, e) = old_blocks_lem p size v h bs hs in
    alloc_all_lem sizes (rt_pool_alloc p size).1 (new_block p size ∷ bs)
      (rt_pool_alloc-IsValid size v h) l
      ((new_block-IsTaken p size v h, new_block-IsInside p size v h), r) (e, d)

All-map {κ κ'} :
    {P : Block → Type κ} {Q : Block → Type κ'} (bs : List Block)
    → ((b : Block) → P b → Q b)
    → All P bs
    → All Q bs
All-map [] f h = tt
All-map (b ∷ bs) f (h, hs) = (f b h, All-map bs f hs)

-- Any calls of `rt_pool_alloc` on a valid pool, for fewer than 2 ^ 31 - 2048 bytes each, hand out
-- blocks that lie inside their trunks and do not overlap one another, and leave the pool valid.
pub rt_pool_alloc-AreDisjoint :
    (p : Pool) (sizes : List ℕ)
    → IsValid p
    → All (λ s. s < max_size) sizes
    → let (bs, p') = alloc_all p [] sizes in All (IsInside p') bs × AreDisjoint bs × IsValid p'
rt_pool_alloc-AreDisjoint p sizes v h =
    let (hs, d, v') = alloc_all_lem sizes p [] v h tt tt in
    (All-map (alloc_all p [] sizes).0 (λ b h'. h'.1) hs, d, v')

-- From 2 ^ 31 - 2048 bytes on, the size of a new trunk does not fit an int: where the current trunk
-- has no room, the block that is handed out is not inside its trunk, and the pool is not valid.
pub rt_pool_alloc_too_large :
    (p : Pool) (size : ℕ)
    → IsValid p
    → max_size ≤ size
    → size < uint_mod
    → p.curr_capacity < p.curr_used + size
    → let (q, p') = rt_pool_alloc p size in
      ¬ IsInside p' (record { at = q; size = size }) × (¬ IsValid p')
unfolding rt_pool_alloc
rt_pool_alloc_too_large p size v h l full = ground arith
