-- ===== src/Buffer/WriteBuffer/Laws.antt =====
-- A write buffer as the bytes written so far: every write appends its bytes, and growing loses none.
use rushkit.Base.{
  ℕ, zero, suc, ◌+◌, ◌*◌, ◌^◌, ◌%◌, true, false, leb, ◌≤◌, ◌<◌, ◌≡◌, inl, inr, refl, ◌++◌, arith,
  Bytes, length, lengths, ltb, Bool-cases,
}
use rushkit.Base.Outcome.{ok}
use rushkit.Word.{int_less}
use rushkit.Pool.{rt_pool_alloc}
use rushkit.Pool.Blocks
use rushkit.Pool.Blocks.{max_size, rt_pool_alloc-IsValid}
use rushkit.Buffer.WriteBuffer.{WriteBuffer, double_until, grow, in_block, rtmp_wb_write}

pub record IsValid (b : WriteBuffer) : Type 0 where
  pub some_room : 0 < b.capacity
  pub is_int : b.capacity < 2 ^ 31
  pub held : b.room ≡ b.capacity
  pub within : length b.written ≤ b.capacity
  pub pool_valid : Blocks.IsValid b.pool

int_less-ltb : (a b : ℕ) → a < 2 ^ 31 → b < 2 ^ 31 → int_less a b ≡ ltb a b
int_less-ltb a b h h' = ground arith

-- The doubling ends with a capacity that is enough and less than twice what is needed.
double_until_lem :
    (fuel need new_cap : ℕ)
    → 0 < new_cap
    → need < 2 ^ 29
    → need < new_cap + fuel + 1
    → new_cap < 2 * need
    → (cap : ℕ) × (double_until fuel need new_cap ≡ ok cap) × (need ≤ cap) × (cap < 2 * need)
unfolding double_until
double_until_lem zero need new_cap h small f l = (new_cap, ground arith, omega arith, omega arith)
double_until_lem (suc fuel) need new_cap h small f l = elim (Bool-cases (int_less new_cap need)) [
  | inl more ↦
      let (cap, e, lo, hi) =
        double_until_lem fuel need (new_cap * 2 % 2 ^ 32) (omega arith) small (omega arith)
          (ground arith) in
      (cap, rw more e, lo, hi)
  | inr done ↦ (new_cap, rw done refl, ground arith, l)
]

-- Where more than half of what is needed is there, doubling once is enough.
grow_cap :
    (b : WriteBuffer) (need : ℕ)
    → 0 < b.capacity
    → b.capacity < need
    → need < 2 ^ 29
    → (cap : ℕ) × (double_until need need (b.capacity * 2 % 2 ^ 32) ≡ ok cap)
      × (need ≤ cap)
      × (cap < 2 * need)
grow_cap b need h l small =
    double_until_lem need need (b.capacity * 2 % 2 ^ 32) (omega arith) small (omega arith)
      (omega arith)

-- What a write leaves: the bytes appended, and a valid buffer.
pub record Appended (b : WriteBuffer) (src : Bytes) (out : ℕ × WriteBuffer) : Type 0 where
  pub count : out.0 ≡ length src
  pub bytes : out.1.written ≡ b.written ++ src
  pub valid : IsValid out.1

fits_capacity :
    (b : WriteBuffer) (src : Bytes)
    → IsValid b
    → int_less b.capacity (length b.written + length src) ≡ false
    → length b.written + length src < 2 ^ 29
    → length b.written + length src ≤ b.capacity
fits_capacity b src v enough l = ground (arith, v.is_int)

-- A write of bytes that, with those written before, are fewer than 2 ^ 29 returns their number and
-- appends them to a valid buffer, which stays valid: the loop over the capacity ends, with an int from
-- 1 to 2 ^ 31 - 1 that is also the size of the buffer's block, and nothing is copied past that block.
pub rtmp_wb_write_lem :
    (b : WriteBuffer) (src : Bytes)
    → IsValid b
    → length b.written + length src < 2 ^ 29
    → (out : ℕ × WriteBuffer) × (rtmp_wb_write b src ≡ ok out) × Appended b src out
unfolding rtmp_wb_write grow in_block
rtmp_wb_write_lem b src v l =
    let need = length b.written + length src in
    let wrapped : need % 2 ^ 32 ≡ need = omega arith in
    elim (Bool-cases (int_less b.capacity need)) [
      | inl more ↦
          let (cap, e, lo, hi) = grow_cap b need v.some_room (ground (arith, v.is_int)) l in
          let (p, pool') = rt_pool_alloc b.pool cap in
          let kept : leb (length b.written) cap ≡ true = ground arith in
          let fits : leb need cap ≡ true = ground arith in
          (
            (
              length src,
              record {
                buf = p;
                room = cap;
                written = b.written ++ src;
                capacity = cap;
                pool = pool';
              },
            ),
            rw (wrapped, more, e, kept, fits) refl,
            record {
              count = refl;
              bytes = refl;
              valid = record {
                some_room = omega arith;
                is_int = omega arith;
                held = refl;
                within = omega lengths;
                pool_valid = rt_pool_alloc-IsValid cap v.pool_valid (omega arith);
              };
            },
          )
      | inr enough ↦
          let fits : leb need b.room ≡ true = ground (arith, v.is_int, v.held) in
          (
            (length src, record b { written = b.written ++ src }),
            rw (wrapped, enough, fits) refl,
            record {
              count = refl;
              bytes = refl;
              valid = record {
                some_room = v.some_room;
                is_int = v.is_int;
                held = v.held;
                within = omega (lengths, fits_capacity b src v enough l);
                pool_valid = v.pool_valid;
              };
            },
          )
    ]
