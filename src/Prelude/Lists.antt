-- ===== src/Prelude/Lists.antt =====
-- Lists measured by native numbers, searched and rewritten by Boolean tests.
use Prim.Native.Nat.{ℕ, zero, suc, ◌+◌, ◌≤◌}
use mathlib.Core.Path.{◌≡◌, refl}
use mathlib.Core.Bool.{Bool, true, false}
use mathlib.Core.List.{List, [], ◌∷◌, ◌++◌}
use mathlib.Core.Option.{Option, none, some}
use native.Mathlib.Omega.{arith}
use de_box_asset_alert.Prelude.Tests.{if◌then◌else◌}

module _ {ℓ} {A : Type ℓ} where
  abbrev pub length : List A → ℕ
  length [] = 0
  length (x ∷ xs) = suc (length xs)

  abbrev pub take : ℕ → List A → List A
  take zero xs = []
  take (suc n) [] = []
  take (suc n) (x ∷ xs) = x ∷ take n xs

  -- SELECT ... WHERE test
  unfoldable pub select : (A → Bool) → List A → List A
  select test [] = []
  select test (x ∷ xs) = if test x then x ∷ select test xs else select test xs

  -- SELECT COUNT(*) ... WHERE test
  unfoldable pub count : (A → Bool) → List A → ℕ
  count test [] = 0
  count test (x ∷ xs) = let rest = count test xs in if test x then suc rest else rest

  -- SELECT EXISTS (... WHERE test)
  unfoldable pub exists : (A → Bool) → List A → Bool
  exists test [] = false
  exists test (x ∷ xs) = let rest = exists test xs in if test x then true else rest

  -- The first row that passes the test.
  unfoldable pub find : (A → Bool) → List A → Option A
  find test [] = none
  find test (x ∷ xs) = let rest = find test xs in if test x then some x else rest

  -- UPDATE ... SET change WHERE test
  unfoldable pub update : (A → Bool) → (A → A) → List A → List A
  update test change [] = []
  update test change (x ∷ xs) = (if test x then change x else x) ∷ update test change xs

  -- ORDER BY ... LIMIT 1: the first of the rows that no row beats.
  unfoldable pub first_by : (A → A → Bool) → List A → Option A
  first_by beats [] = none
  first_by beats (x ∷ xs) = elim (first_by beats xs) [
    | none ↦ some x
    | some y ↦ if beats y x then some y else some x
  ]

  abbrev pub All {κ} : (A → Type κ) → List A → Type κ
  All P [] = Unit
  All P (x ∷ xs) = P x × All P xs

  pub length-append : (xs ys : List A) → length (xs ++ ys) ≡ length xs + length ys
  length-append [] ys = omega arith
  length-append (x ∷ xs) ys = omega (arith, length-append xs ys)

  pub count-append :
      (test : A → Bool) (xs ys : List A) → count test (xs ++ ys) ≡ count test xs + count test ys
  unfolding count
  count-append test [] ys = omega arith
  count-append test (x ∷ xs) ys = ground (arith, count-append test xs ys)

  pub count-le-length : (test : A → Bool) (xs : List A) → count test xs ≤ length xs
  unfolding count
  count-le-length test [] = omega arith
  count-le-length test (x ∷ xs) = ground (arith, count-le-length test xs)

-- The error of the first check that fails, of checks with their errors.
unfoldable pub first_failure {ℓ} : {E : Type ℓ} → List (Bool × E) → Option E
first_failure [] = none
first_failure ((failing, e) ∷ checks) =
    let rest = first_failure checks in if failing then some e else rest

pub first_failure-none {ℓ} :
    {E : Type ℓ} (checks : List (Bool × E))
    → first_failure checks ≡ none
    → All (λ (check : Bool × E). check.0 ≡ false) checks
unfolding first_failure
first_failure-none [] h = tt
first_failure-none ((true, e) ∷ checks) h = absurd (cc)
first_failure-none ((false, e) ∷ checks) h = (refl, first_failure-none checks h)
