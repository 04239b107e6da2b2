-- ===== src/Base/Lists.antt =====
-- Lists measured and indexed by native numbers, under the library's names.
use Prim.Native.Nat.{ℕ, zero, suc, ◌+◌, ◌≤◌, ◌<◌}
use mathlib.Core.Path.{◌≡◌, refl, ap}
use mathlib.Core.List.{List, [], ◌∷◌, ◌++◌}
use mathlib.Core.Logic.{◌⊎◌, inl, inr}
use mathlib.Core.Option.{Option, none, some}
use native.Mathlib.Omega.{arith}

module _ {ℓ} {A : Type ℓ} where
  abbrev pub length : List A → ℕ
  length [] = 0
  length (x ∷ xs) = suc (length xs)

  abbrev pub get_elem? : List A → ℕ → Option A
  get_elem? [] i = none
  get_elem? (x ∷ xs) zero = some x
  get_elem? (x ∷ xs) (suc i) = get_elem? xs i

  pub length-append : (xs ys : List A) → length (xs ++ ys) ≡ length xs + length ys
  length-append [] ys = omega arith
  length-append (x ∷ xs) ys = omega (arith, length-append xs ys)

  abbrev pub take : ℕ → List A → List A
  take zero l = []
  take (suc n) [] = []
  take (suc n) (x ∷ l) = x ∷ take n l

  abbrev pub drop : ℕ → List A → List A
  drop zero l = l
  drop (suc n) [] = []
  drop (suc n) (x ∷ l) = drop n l

  pub length-take : (n : ℕ) (l : List A) → length (take n l) ≤ n
  length-take zero l = omega arith
  length-take (suc n) [] = omega arith
  length-take (suc n) (x ∷ l) = omega (arith, length-take n l)

  pub take-drop : (n : ℕ) (l : List A) → take n l ++ drop n l ≡ l
  take-drop zero l = refl
  take-drop (suc n) [] = refl
  take-drop (suc n) (x ∷ l) = ap (λ t. x ∷ t) (take-drop n l)

  -- A list that is cut is cut at the length.
  pub take-cases :
      (n : ℕ) (l : List A)
      → ((length l ≤ n) × (take n l ≡ l)) ⊎ ((n < length l) × (length (take n l) ≡ n))
  take-cases zero [] = inl (omega arith, refl)
  take-cases zero (x ∷ l) = inr (omega arith, refl)
  take-cases (suc n) [] = inl (omega arith, refl)
  take-cases (suc n) (x ∷ l) = elim (take-cases n l) [
    | inl (le, e) ↦ inl (omega (arith, le), ap (λ t. x ∷ t) e)
    | inr (lt, e) ↦ inr (omega (arith, lt), omega (arith, e))
  ]

  pub take-eq_of_le : (n : ℕ) (l : List A) → length l ≤ n → take n l ≡ l
  take-eq_of_le n l le = elim (take-cases n l) [
    | inl (le', e) ↦ e
    | inr (lt, e) ↦ absurd (omega arith)
  ]
