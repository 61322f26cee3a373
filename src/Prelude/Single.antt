-- ===== src/Prelude/Single.antt =====
-- Updates that change one row: the row that passes a test which at most one row passes.
use Prim.Native.Nat.{ℕ, ◌+◌, ◌≤◌}
use mathlib.Core.Path.{◌≡◌, refl}
use mathlib.Core.Bool.{Bool, true, false, not, ◌&&◌}
use mathlib.Core.List.{List, [], ◌∷◌}
use mathlib.Core.Logic.{inl, inr}
use mathlib.Core.Option.{some}
use native.Mathlib.Omega.{arith}
use de_box_asset_alert.Prelude.Tests.{Bool-cases}
use de_box_asset_alert.Prelude.Lists.{count, exists, find, update}
use de_box_asset_alert.Prelude.Queries.{update_none}

-- 1 or 0
abbrev pub indicator : Bool → ℕ
indicator true = 1
indicator false = 0

module _ {ℓ} {A : Type ℓ} where
  pub count_zero : (q : A → Bool) (xs : List A) → exists q xs ≡ false → count q xs ≡ 0
  unfolding count exists
  count_zero q [] h = refl
  count_zero q (x ∷ xs) h = ground (arith, count_zero q xs)

  pub count_mono :
      (p q : A → Bool) (xs : List A) → ((x : A) → p x ≡ true → q x ≡ true) → count p xs ≤ count q xs
  unfolding count
  count_mono p q [] h = omega arith
  count_mono p q (x ∷ xs) h = ground (arith, h x, count_mono p q xs h)

  pub count-update_le :
      (q test : A → Bool) (change : A → A) (xs : List A)
      → ((x : A) → test x ≡ true → q (change x) ≡ true → q x ≡ true)
      → count q (update test change xs) ≤ count q xs
  unfolding count update
  count-update_le q test change [] h = omega arith
  count-update_le q test change (x ∷ xs) h = ground (arith, h x, count-update_le q test change xs h)

  pub find-count :
      (test : A → Bool) (xs : List A) {x : A} → find test xs ≡ some x → 1 ≤ count test xs
  unfolding count find
  find-count test [] h = absurd (cc)
  find-count test (y ∷ xs) {x} h = elim (Bool-cases (test y)) [
    | inl e ↦ ground arith
    | inr e ↦ ground (arith, find-count test xs {x = x})
  ]

  -- The effect on a count of an update that changes one row, `key` being the test of which `test` is
  -- a part and which at most one row passes.
  pub count-update_one :
      (q key test : A → Bool) (change : A → A) (xs : List A) {x : A}
      → ((y : A) → test y ≡ true → key y ≡ true)
      → count key xs ≤ 1
      → find test xs ≡ some x
      → count q (update test change xs) + indicator (q x) ≡ count q xs + indicator (q (change x))
  unfolding count update find
  count-update_one q key test change [] part single h = absurd (cc)
  count-update_one q key test change (y ∷ xs) {x} part single h = elim (Bool-cases (test y)) [
    | inl e ↦ ground (arith, part y e, count_mono test key xs part, update_none test change xs)
    | inr e ↦ ground (arith, count-update_one q key test change xs {x = x} part)
  ]

  count_split :
      (q key : A → Bool) (xs : List A)
      → count q xs ≤ count (λ y. not (key y) && q y) xs + count key xs
  unfolding count
  count_split q key [] = omega arith
  count_split q key (x ∷ xs) = ground (arith, count_split q key xs)

  -- With no other row, only the found one counts.
  pub count_only :
      (q key test : A → Bool) (xs : List A) {x : A}
      → ((y : A) → test y ≡ true → key y ≡ true)
      → count key xs ≤ 1
      → find test xs ≡ some x
      → exists (λ y. not (key y) && q y) xs ≡ false
      → count q xs ≤ indicator (q x)
  unfolding count find exists
  count_only q key test [] part single h none_else = absurd (cc)
  count_only q key test (y ∷ xs) {x} part single h none_else = elim (Bool-cases (test y)) [
    | inl e ↦
        ground (arith, part y e, count_split q key xs, count_zero (λ z. not (key z) && q z) xs)
    | inr e ↦ ground (
      arith,
      find-count test xs {x = x},
      count_mono test key xs part,
      count_only q key test xs {x = x} part,
    )
  ]

  exists_mono :
      (p q : A → Bool) (xs : List A)
      → ((x : A) → p x ≡ true → q x ≡ true)
      → exists q xs ≡ false
      → exists p xs ≡ false
  unfolding exists
  exists_mono p q [] h e = refl
  exists_mono p q (x ∷ xs) h e = ground (arith, h x, exists_mono p q xs h)

  -- Where no other row counts, at most the changed one does.
  pub count-update_sole :
      (q key test other : A → Bool) (change : A → A) (xs : List A) {x : A}
      → ((y : A) → test y ≡ true → key y ≡ true)
      → count key xs ≤ 1
      → find test xs ≡ some x
      → ((y : A) → not (key y) && q y ≡ true → other y ≡ true)
      → exists other xs ≡ false
      → count q (update test change xs) ≤ 1
  count-update_sole q key test other change xs {x} part single h other_of free =
      let only =
        count_only q key test xs {x = x} part single h
          (exists_mono (λ y. not (key y) && q y) other xs other_of free) in
      let one = count-update_one q key test change xs {x = x} part single h in
      elim (Bool-cases (q (change x))) [ inl e ↦ ground arith | inr e ↦ ground arith ]

  pub count-update_add :
      (q test : A → Bool) (change : A → A) (xs : List A)
      → count q (update test change xs) ≤ count q xs + count test xs
  unfolding count update
  count-update_add q test change [] = omega arith
  count-update_add q test change (x ∷ xs) = ground (arith, count-update_add q test change xs)
