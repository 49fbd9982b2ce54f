-- ===== src/Server/Map.antt =====
-- std::map<int, T> and the heap of aux/connection.cpp: an association list, whose order is not seen.
use rushkit.Base.{
  ℕ, ◌≡◌, ◌≢◌, ◌⊎◌, inl, inr, refl, sym, ap, ◌∙◌, List, [], ◌∷◌, Option, none, some, arith, ◌==◌,
  ==_iff, Bool-cases, if◌then◌else◌,
}

module _ {ℓ} {A : Type ℓ} where
  abbrev pub find : List (ℕ × A) → ℕ → Option A
  find [] k = none
  find ((j, a) ∷ xs) k = if j == k then some a else find xs k

  abbrev pub erase : List (ℕ × A) → ℕ → List (ℕ × A)
  erase [] k = []
  erase ((j, a) ∷ xs) k = let rest = erase xs k in if j == k then rest else (j, a) ∷ rest

  -- `m[k] = a`
  abbrev pub put : List (ℕ × A) → ℕ → A → List (ℕ × A)
  put xs k a = (k, a) ∷ erase xs k

pub eq_or_ne : (a b : ℕ) → (a ≡ b) ⊎ (a ≢ b)
eq_or_ne a b = elim (Bool-cases (a == b)) [
  | inl same ↦ inl ((==_iff a b).0 same)
  | inr other ↦ inr (λ e. ground arith)
]

pub some-injective {ℓ} : {A : Type ℓ} {a b : A} → some a ≡ some b → a ≡ b
some-injective e = cc

module _ {ℓ} {A : Type ℓ} where
  pub find-erase : (xs : List (ℕ × A)) (k : ℕ) → find (erase xs k) k ≡ none
  find-erase [] k = refl
  find-erase ((j, a) ∷ xs) k = ground (arith, find-erase xs k)

  pub find-erase_other : (xs : List (ℕ × A)) (j k : ℕ) → j ≢ k → find (erase xs k) j ≡ find xs j
  find-erase_other [] j k h = refl
  find-erase_other ((i, a) ∷ xs) j k h = ground (arith, find-erase_other xs j k h)

  pub find-here : (xs : List (ℕ × A)) (k : ℕ) (a : A) → find ((k, a) ∷ xs) k ≡ some a
  find-here xs k a = ground arith

  pub find-there : (xs : List (ℕ × A)) (j k : ℕ) (a : A) → j ≢ k → find ((k, a) ∷ xs) j ≡ find xs j
  find-there xs j k a h = ground arith

  pub find-put : (xs : List (ℕ × A)) (k : ℕ) (a : A) → find (put xs k a) k ≡ some a
  find-put xs k a = ground arith

module _ {ℓ} {A : Type ℓ} where
  pub find-put_other :
      (xs : List (ℕ × A)) (j k : ℕ) (a : A) → j ≢ k → find (put xs k a) j ≡ find xs j
  find-put_other xs j k a h = find-there (erase xs k) j k a h ∙ find-erase_other xs j k h

  pub find-erase_found :
      (xs : List (ℕ × A)) (j k : ℕ) (a : A)
      → find (erase xs k) j ≡ some a
      → (j ≢ k) × (find xs j ≡ some a)
  find-erase_found xs j k a e =
      let other : j ≢ k = λ same.
        let missing : find (erase xs k) j ≡ none = ap (find (erase xs k)) same ∙ find-erase xs k in
        cc in
      (other, sym (find-erase_other xs j k other) ∙ e)
