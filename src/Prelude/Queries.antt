-- ===== src/Prelude/Queries.antt =====
-- Laws of the queries and updates on tables.
use Prim.Native.Nat.{ℕ, ◌≤◌}
use mathlib.Core.Path.{◌≡◌, refl, subst}
use mathlib.Core.Bool.{Bool, true, false, ◌&&◌}
use mathlib.Core.List.{List, [], ◌∷◌, ◌++◌}
use mathlib.Core.Logic.{inl, inr}
use mathlib.Core.Option.{none, some}
use native.Mathlib.Omega.{arith}
use de_box_asset_alert.Prelude.Tests.{Bool-cases, Option-cases}
use de_box_asset_alert.Prelude.Lists.{select, count, exists, find, update, first_by, All}

module _ {ℓ} {A : Type ℓ} where
  pub All-mono {κ μ} :
      (P : A → Type κ) (Q : A → Type μ) (xs : List A) → ((x : A) → P x → Q x) → All P xs → All Q xs
  All-mono P Q [] f h = tt
  All-mono P Q (x ∷ xs) f (p, h) = (f x p, All-mono P Q xs f h)

  pub All-both {κ μ} :
      (P : A → Type κ) (Q : A → Type μ) (xs : List A)
      → All P xs
      → All Q xs
      → All (λ x. P x × Q x) xs
  All-both P Q [] a b = tt
  All-both P Q (x ∷ xs) (p, a) (q, b) = ((p, q), All-both P Q xs a b)

  pub count-none :
      (test : A → Bool) (xs : List A) → count test xs ≡ 0 → All (λ x. test x ≡ false) xs
  unfolding count
  count-none test [] h = tt
  count-none test (x ∷ xs) h = elim (Bool-cases (test x)) [
    | inl e ↦ absurd (ground arith)
    | inr e ↦ (e, count-none test xs (ground arith))
  ]

  pub All-of {κ} : (P : A → Type κ) (xs : List A) → ((x : A) → P x) → All P xs
  All-of P [] f = tt
  All-of P (x ∷ xs) f = (f x, All-of P xs f)

  pub select_none : (test : A → Bool) (xs : List A) → count test xs ≡ 0 → select test xs ≡ []
  unfolding count select
  select_none test [] h = refl
  select_none test (x ∷ xs) h = ground (arith, select_none test xs)

  pub update_none :
      (test : A → Bool) (f : A → A) (xs : List A) → count test xs ≡ 0 → update test f xs ≡ xs
  unfolding count update
  update_none test f [] h = refl
  update_none test f (x ∷ xs) h = ground (arith, update_none test f xs)

  pub select_all : (test : A → Bool) (xs : List A) → ((x : A) → test x ≡ true) → select test xs ≡ xs
  unfolding select
  select_all test [] h = refl
  select_all test (x ∷ xs) h = ground (arith, h x, select_all test xs h)

  -- An update whose result no longer passes the test leaves no row that does.
  pub count-update :
      (test : A → Bool) (f : A → A) (xs : List A)
      → ((x : A) → test (f x) ≡ false)
      → count test (update test f xs) ≡ 0
  unfolding count update
  count-update test f [] h = refl
  count-update test f (x ∷ xs) h = ground (arith, h x, count-update test f xs h)

  -- A query that the update cannot affect.
  pub select-update :
      (q test : A → Bool) (f : A → A) (xs : List A)
      → ((x : A) → test x ≡ true → q x ≡ false)
      → ((x : A) → q (f x) ≡ false)
      → select q (update test f xs) ≡ select q xs
  unfolding select update
  select-update q test f [] h k = refl
  select-update q test f (x ∷ xs) h k = ground (arith, h x, k x, select-update q test f xs h k)

  pub count-update_same :
      (q test : A → Bool) (f : A → A) (xs : List A)
      → ((x : A) → test x ≡ true → q (f x) ≡ q x)
      → count q (update test f xs) ≡ count q xs
  unfolding count update
  count-update_same q test f [] h = refl
  count-update_same q test f (x ∷ xs) h = ground (arith, h x, count-update_same q test f xs h)

  pub All-update {κ} :
      (P : A → Type κ) (test : A → Bool) (f : A → A) (xs : List A)
      → ((x : A) → test x ≡ true → P x → P (f x))
      → All P xs
      → All P (update test f xs)
  unfolding update
  All-update P test f [] h a = tt
  All-update P test f (x ∷ xs) h (p, a) = elim (Bool-cases (test x)) [
    | inl e ↦ rw e (h x e p, All-update P test f xs h a)
    | inr e ↦ rw e (p, All-update P test f xs h a)
  ]

  pub All-append {κ} : (P : A → Type κ) (xs ys : List A) → All P xs → All P ys → All P (xs ++ ys)
  All-append P [] ys _ h = h
  All-append P (x ∷ xs) ys (p, g) h = (p, All-append P xs ys g h)

  pub find-test : (test : A → Bool) (xs : List A) {x : A} → find test xs ≡ some x → test x ≡ true
  unfolding find
  find-test test [] h = cc
  find-test test (y ∷ xs) {x} h = elim (Bool-cases (test y)) [
    | inl e ↦ ground arith
    | inr e ↦ find-test test xs (ground arith)
  ]

  pub find-All {κ} :
      (P : A → Type κ) (test : A → Bool) (xs : List A) {x : A}
      → All P xs
      → find test xs ≡ some x
      → P x
  unfolding find
  find-All P test [] a h = absurd (cc)
  find-All P test (y ∷ xs) {x} (p, a) h = elim (Bool-cases (test y)) [
    | inl e ↦ subst P (ground arith) p
    | inr e ↦ find-All P test xs a (ground arith)
  ]

  pub select-All : (test : A → Bool) (xs : List A) → All (λ x. test x ≡ true) (select test xs)
  unfolding select
  select-All test [] = tt
  select-All test (x ∷ xs) = elim (Bool-cases (test x)) [
    | inl e ↦ rw e (e, select-All test xs)
    | inr e ↦ rw e (select-All test xs)
  ]

  -- What holds of every row of a selection holds of every row that passes its test.
  pub All-select {κ} :
      (P : A → Type κ) (test : A → Bool) (xs : List A)
      → All P (select test xs)
      → All (λ x. test x ≡ true → P x) xs
  unfolding select
  All-select P test [] a = tt
  All-select P test (x ∷ xs) a = elim (Bool-cases (test x)) [
    | inl e ↦
        (let b : All P (x ∷ select test xs) = rw e at a in (λ _. b.0, All-select P test xs b.1))
    | inr e ↦ (λ t. absurd (cc), All-select P test xs (rw e at a))
  ]

  pub first_by-none : (beats : A → A → Bool) (xs : List A) → first_by beats xs ≡ none → xs ≡ []
  unfolding first_by
  first_by-none beats [] h = refl
  first_by-none beats (x ∷ xs) h = ground arith

  -- The winner of `first_by` has the largest measure, and passes what all rows pass.
  pub first_by-best :
      (beats : A → A → Bool) (m : A → ℕ)
      → ((a b : A) → beats a b ≡ true → m b ≤ m a)
      → ((a b : A) → beats a b ≡ false → m a ≤ m b)
      → (xs : List A) {y : A} → first_by beats xs ≡ some y
      → All (λ x. m x ≤ m y) xs
  unfolding first_by
  first_by-best beats m win lose [] h = tt
  first_by-best beats m win lose (x ∷ xs) {y} h = elim (Option-cases (first_by beats xs)) [
    | inl e ↦ (ground arith, rw (first_by-none beats xs e) tt)
    | inr (z, e) ↦
        (let ih = first_by-best beats m win lose xs e in
          elim (Bool-cases (beats z x)) [
            | inl b ↦
                subst (λ w. All (λ v. m v ≤ m w) (x ∷ xs)) {x = z} (ground arith) (win z x b, ih)
            | inr b ↦
                subst (λ w. All (λ v. m v ≤ m w) (x ∷ xs)) {x = x} (ground arith)
                  (omega arith, All-mono _ _ xs (λ v p. omega (arith, p, lose z x b)) ih)
          ])
  ]

  pub first_by-All {κ} :
      (P : A → Type κ) (beats : A → A → Bool) (xs : List A) {y : A}
      → All P xs
      → first_by beats xs ≡ some y
      → P y
  unfolding first_by
  first_by-All P beats [] a h = absurd (cc)
  first_by-All P beats (x ∷ xs) {y} (p, a) h = elim (Option-cases (first_by beats xs)) [
    | inl e ↦ subst P (ground arith) p
    | inr (z, e) ↦ elim (Bool-cases (beats z x)) [
      | inl b ↦ subst P (ground arith) (first_by-All P beats xs a e)
      | inr b ↦ subst P (ground arith) p
    ]
  ]

  pub exists-select :
      (test q : A → Bool) (xs : List A) → exists q (select test xs) ≡ exists (λ x. test x && q x) xs
  unfolding exists select
  exists-select test q [] = refl
  exists-select test q (x ∷ xs) = ground (arith, exists-select test q xs)

  pub exists_of_select_nil :
      (test : A → Bool) (xs : List A) → select test xs ≡ [] → exists test xs ≡ false
  unfolding exists select
  exists_of_select_nil test [] h = refl
  exists_of_select_nil test (x ∷ xs) h = ground (arith, exists_of_select_nil test xs)

  -- The winner of `first_by` is one of the rows.
  pub first_by-exists :
      (beats : A → A → Bool) (q : A → Bool) (xs : List A) {y : A}
      → first_by beats xs ≡ some y
      → q y ≡ true
      → exists q xs ≡ true
  unfolding first_by exists
  first_by-exists beats q [] h t = absurd (cc)
  first_by-exists beats q (x ∷ xs) {y} h t = elim (Option-cases (first_by beats xs)) [
    | inl e ↦ ground arith
    | inr (z, e) ↦ elim (Bool-cases (q z)) [
      | inl b ↦ ground (arith, first_by-exists beats q xs e b)
      | inr b ↦ ground arith
    ]
  ]

  -- A row that passes the test makes `exists` true.
  pub exists_none :
      (test : A → Bool) (xs : List A) → exists test xs ≡ false → All (λ x. test x ≡ false) xs
  unfolding exists
  exists_none test [] h = tt
  exists_none test (x ∷ xs) h = elim (Bool-cases (test x)) [
    | inl e ↦ absurd (ground arith)
    | inr e ↦ (e, exists_none test xs (ground arith))
  ]

  -- What an update makes of the rows, whatever they were.
  pub update-All {κ} :
      (P : A → Type κ) (test : A → Bool) (f : A → A) (xs : List A)
      → ((x : A) → test x ≡ true → P (f x))
      → ((x : A) → test x ≡ false → P x)
      → All P (update test f xs)
  unfolding update
  update-All P test f [] h k = tt
  update-All P test f (x ∷ xs) h k = elim (Bool-cases (test x)) [
    | inl e ↦ rw e (h x e, update-All P test f xs h k)
    | inr e ↦ rw e (k x e, update-All P test f xs h k)
  ]
