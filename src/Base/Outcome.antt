-- ===== src/Base/Outcome.antt =====
-- What a C function does: it returns, its assert fails, it touches memory outside a buffer, or the
-- model's fuel runs out.
use Prim.Native.Nat.{ℕ, ◌+◌}
use mathlib.Core.Path.{◌≡◌, refl, subst}
use mathlib.Core.Logic.{◌≢◌}
use mathlib.Core.Bool.{Bool, true, false}
use mathlib.Core.List.{◌++◌}
use native.Mathlib.Omega.{arith}
use rushkit.Base.Tests.{leb, le→leb, ◌==◌, ==_iff, if◌then◌else◌}
use rushkit.Base.Lists.{
  Bytes, length, take, drop, length-append, take-append_length, drop-append_length, length-take,
  length-drop,
}

pub data Outcome {ℓ} (A : Type ℓ) : Type ℓ where
  ok : A → Outcome A
  abort fault out_of_fuel : Outcome A

infixl 5 ◌>>=◌ ◌>>◌
abbrev pub ◌>>=◌ {ℓ κ} : {A : Type ℓ} {B : Type κ} → Outcome A → (A → Outcome B) → Outcome B
ok a >>= f = f a
abort >>= f = abort
fault >>= f = fault
out_of_fuel >>= f = out_of_fuel

abbrev pub ◌>>◌ {ℓ} : {B : Type ℓ} → Outcome (Unit {0}) → Outcome B → Outcome B
m >> k = m >>= λ _. k

-- `assert` of assert.h.
abbrev pub assert : Bool → Outcome (Unit {0})
assert true = ok tt
assert false = abort

pub assert-eq {ℓ} :
    {A : Type ℓ} {a b : ℕ} (k : Unit {0} → Outcome A) → a ≡ b → (assert (a == b) >>= k) ≡ k tt
assert-eq {a = a} {b = b} k e = rw ((==_iff a b).1 e)

-- The `n` bytes at a pointer and what follows them; a fault where fewer are left.
abbrev pub split_at : ℕ → Bytes → Outcome (Bytes × Bytes)
split_at n src = if leb n (length src) then ok (take n src, drop n src) else fault

pub split_at-append : (n : ℕ) (xs ys : Bytes) → length xs ≡ n → split_at n (xs ++ ys) ≡ ok (xs, ys)
split_at-append n xs ys e =
    rw (← e, le→leb (length xs) (length (xs ++ ys)) (omega (arith, length-append {0} xs ys)))
      (rw (take-append_length xs ys, drop-append_length xs ys))

-- The run ends, and `P` holds of what it returns, if it returns.
pub data Ensures {ℓ κ} {A : Type ℓ} (P : A → Type κ) : Outcome A → Type (ℓ ⊔ κ) where
  returned : {a : A} → P a → Ensures P (ok a)
  aborted : Ensures P abort
  faulted : Ensures P fault

module _ {ℓ κ} {A : Type ℓ} {P : A → Type κ} where
  pub Ensures-ok : {r : Outcome A} {a : A} → Ensures P r → r ≡ ok a → P a
  Ensures-ok (returned h) e = subst P (cc) h
  Ensures-ok aborted e = cc
  Ensures-ok faulted e = cc

  pub Ensures-out_of_fuel : {r : Outcome A} → Ensures P r → r ≢ out_of_fuel
  Ensures-out_of_fuel (returned h) = cc
  Ensures-out_of_fuel aborted = cc
  Ensures-out_of_fuel faulted = cc

  pub Ensures-if :
      (b : Bool) {x y : Outcome A}
      → (b ≡ true → Ensures P x)
      → (b ≡ false → Ensures P y)
      → Ensures P (if b then x else y)
  Ensures-if true hx hy = hx refl
  Ensures-if false hx hy = hy refl

  pub Ensures-bind {ℓ' κ'} :
      {B : Type ℓ'} {Q : B → Type κ'} {r : Outcome A} {f : A → Outcome B}
      → Ensures P r
      → ((a : A) → P a → Ensures Q (f a))
      → Ensures Q (r >>= f)
  Ensures-bind (returned {a} h) k = k a h
  Ensures-bind aborted k = aborted
  Ensures-bind faulted k = faulted

pub split_at-Ensures :
    (n : ℕ) (src : Bytes)
    → Ensures
        (λ (taken, rest). (length taken ≡ n) × (n + length rest ≡ length src))
        (split_at n src)
split_at-Ensures n src =
    Ensures-if (leb n (length src))
      (λ h. returned (ground (arith, length-take n src), ground (arith, length-drop n src)))
      (λ h. faulted)

-- What a run that returns has done on the way.
pub bind-ok {ℓ κ} :
    {A : Type ℓ} {B : Type κ} (m : Outcome A) (f : A → Outcome B) (b : B)
    → (m >>= f) ≡ ok b
    → (a : A) × (m ≡ ok a) × (f a ≡ ok b)
bind-ok (ok a) f b e = (a, refl, e)
bind-ok abort f b e = absurd (cc)
bind-ok fault f b e = absurd (cc)
bind-ok out_of_fuel f b e = absurd (cc)

pub ok-injective {ℓ} : {A : Type ℓ} {a b : A} → ok a ≡ ok b → a ≡ b
ok-injective e = cc

pub bind_assoc {ℓ κ μ} :
    {A : Type ℓ} {B : Type κ} {C : Type μ} (m : Outcome A) (f : A → Outcome B) (g : B → Outcome C)
    → ((m >>= f) >>= g) ≡ (m >>= (λ a. f a >>= g))
bind_assoc (ok a) f g = refl
bind_assoc abort f g = refl
bind_assoc fault f g = refl
bind_assoc out_of_fuel f g = refl
