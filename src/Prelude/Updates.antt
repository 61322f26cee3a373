-- ===== src/Prelude/Updates.antt =====
-- Laws of an update on the rows that another query finds or counts.
use Prim.Native.Nat.{◌≤◌}
use mathlib.Core.Path.{◌≡◌, refl, subst, sym, ap}
use mathlib.Core.Bool.{Bool, true, false, ◌&&◌}
use mathlib.Core.List.{List, [], ◌∷◌}
use mathlib.Core.Logic.{inl, inr}
use mathlib.Core.Option.{none, some}
use native.Mathlib.Omega.{arith}
use de_box_asset_alert.Prelude.Tests.{Bool-cases}
use de_box_asset_alert.Prelude.Lists.{count, exists, find, update, All}

pub find-none {ℓ} :
    {A : Type ℓ} (test : A → Bool) (xs : List A) → find test xs ≡ none → count test xs ≡ 0
unfolding find count
find-none test [] h = refl
find-none test (x ∷ xs) h = ground (arith, find-none test xs)

module _ {ℓ} {A : Type ℓ} (test hit : A → Bool) (f : A → A)
    (lost : (x : A) → hit x ≡ true → test (f x) ≡ false) where
  pub count-update_zero : (xs : List A) → count test xs ≡ 0 → count test (update hit f xs) ≡ 0
  unfolding count update
  count-update_zero [] h = refl
  count-update_zero (x ∷ xs) h = ground (arith, lost x, count-update_zero xs)

  -- The only element that passes the test is found and hit.
  pub count-update_found :
      (xs : List A) {w : A}
      → find test xs ≡ some w
      → hit w ≡ true
      → count test xs ≤ 1
      → count test (update hit f xs) ≡ 0
  unfolding count update find
  count-update_found [] h k n = refl
  count-update_found (x ∷ xs) {w} h k n = elim (Bool-cases (test x)) [
    | inl e ↦
        (let k' : hit x ≡ true = subst (λ v. hit v ≡ true) {x = w} {y = x} (ground arith) k in
          ground (arith, lost x k', count-update_zero xs))
    | inr e ↦ ground (arith, lost x, count-update_found xs {w = w} (ground arith) k (ground arith))
  ]

  pub count-update_le : (xs : List A) → count test (update hit f xs) ≤ count test xs
  unfolding count update
  count-update_le [] = omega arith
  count-update_le (x ∷ xs) = ground (arith, lost x, count-update_le xs)

module _ {ℓ κ μ} {A : Type ℓ} (P : A → Type κ) (Q : A → Type μ) (test : A → Bool) (f : A → A)
    (hit : (x : A) → test x ≡ true → P x → Q (f x))
    (other : (x : A) → test x ≡ false → P x → Q x) where
  pub All-update_to : (xs : List A) → All P xs → All Q (update test f xs)
  unfolding update
  All-update_to [] h = tt
  All-update_to (x ∷ xs) (p, h) = elim (Bool-cases (test x)) [
    | inl e ↦ rw e (hit x e p, All-update_to xs h)
    | inr e ↦ rw e (other x e p, All-update_to xs h)
  ]

-- Of the elements that pass a test, those that pass another one as well.
module _ {ℓ} {A : Type ℓ} (p q : A → Bool) where
  pub find-both_none : (xs : List A) → count p xs ≡ 0 → find (λ x. p x && q x) xs ≡ none
  unfolding find count
  find-both_none [] h = refl
  find-both_none (x ∷ xs) h = elim (Bool-cases (p x)) [
    | inl e ↦ absurd (ground arith)
    | inr e ↦ rw e (find-both_none xs (ground arith))
  ]

  pub find-both_some :
      (xs : List A) {w : A} → find p xs ≡ some w → q w ≡ true → find (λ x. p x && q x) xs ≡ some w
  unfolding find
  find-both_some [] h k = absurd (cc)
  find-both_some (x ∷ xs) {w} h k = elim (Bool-cases (p x)) [
    | inl e ↦
        let same : x ≡ w = ground arith in
        let k' : q x ≡ true = subst (λ v. q v ≡ true) {x = w} {y = x} (sym same) k in
        rw (e, k') (ap some same)
    | inr e ↦ rw e (find-both_some xs {w = w} (ground arith) k)
  ]

  pub find-both_failed :
      (xs : List A) {w : A}
      → find p xs ≡ some w
      → q w ≡ false
      → count p xs ≤ 1
      → find (λ x. p x && q x) xs ≡ none
  unfolding find count
  find-both_failed [] h k n = refl
  find-both_failed (x ∷ xs) {w} h k n = elim (Bool-cases (p x)) [
    | inl e ↦
        let same : x ≡ w = ground arith in
        let k' : q x ≡ false = subst (λ v. q v ≡ false) {x = w} {y = x} (sym same) k in
        rw (e, k') (find-both_none xs (ground arith))
    | inr e ↦ rw e (find-both_failed xs {w = w} (ground arith) k (ground arith))
  ]

pub find-exists {ℓ} :
    {A : Type ℓ} (p r : A → Bool) (xs : List A) {w : A}
    → find p xs ≡ some w
    → r w ≡ true
    → exists r xs ≡ true
unfolding find exists
find-exists p r [] h k = absurd (cc)
find-exists p r (x ∷ xs) {w} h k = elim (Bool-cases (p x)) [
  | inl e ↦
      let same : x ≡ w = ground arith in
      let k' : r x ≡ true = subst (λ v. r v ≡ true) {x = w} {y = x} (sym same) k in rw k' refl
  | inr e ↦ let rest = find-exists p r xs {w = w} (ground arith) k in ground (arith, rest)
]

pub exists-update_same {ℓ} :
    {A : Type ℓ} (test hit : A → Bool) (f : A → A) (xs : List A)
    → ((x : A) → test (f x) ≡ test x)
    → exists test (update hit f xs) ≡ exists test xs
unfolding exists update
exists-update_same test hit f [] h = refl
exists-update_same test hit f (x ∷ xs) h = ground (arith, h x, exists-update_same test hit f xs h)
