-- ===== src/MarketDelivery/Queue/Claims.antt =====
-- internal/store/market_delivery.go: what a claim of notifications takes, and that no two take the same.
use de_box_asset_alert.Prelude.{
  ℕ, suc, zero, ◌+◌, ◌-◌, ◌≤◌, Bool, true, false, not, ◌&&◌, inl, inr, ◌≡◌, refl, ap, subst, List,
  [], ◌∷◌, ◌++◌, map, All, take, length, length-append, select, count, exists, ◌==◌, arith,
  Bool-cases,
}
use de_box_asset_alert.Prelude.Queries.{All-mono, update-All}
use de_box_asset_alert.Prelude.Sort.{All-sort}
use de_box_asset_alert.Store.Orders.{clamp}
use de_box_asset_alert.MarketDelivery.Tables.{Row, Db}
use de_box_asset_alert.MarketDelivery.Queue.{
  is_due, is_among, claims_of, candidates, start_sending, claim_table, Claim,
  claim_market_deliveries,
}

length-take {ℓ} : {A : Type ℓ} (n : ℕ) (xs : List A) → length (take n xs) ≤ n
length-take zero xs = omega arith
length-take (suc n) [] = omega arith
length-take (suc n) (x ∷ xs) = omega (arith, length-take n xs)

length-map {ℓ κ} :
    {A : Type ℓ} {B : Type κ} (f : A → B) (xs : List A) → length (map f xs) ≡ length xs
length-map f [] = refl
length-map f (x ∷ xs) = ap suc (length-map f xs)

All-take {ℓ κ} : {A : Type ℓ} (P : A → Type κ) (n : ℕ) (xs : List A) → All P xs → All P (take n xs)
All-take P zero xs h = tt
All-take P (suc n) [] h = tt
All-take P (suc n) (x ∷ xs) (p, h) = (p, All-take P n xs h)

All-map {ℓ κ μ} :
    {A : Type ℓ} {B : Type κ} (P : B → Type μ) (f : A → B) (xs : List A)
    → All (λ x. P (f x)) xs
    → All P (map f xs)
All-map P f [] h = tt
All-map P f (x ∷ xs) (p, h) = (p, All-map P f xs h)

-- What holds of the due rows that pass the condition, and of the others trivially, holds of all rows
-- of the selection.
All-selected {ℓ κ} :
    {A : Type ℓ} (P : A → Type κ) (test : A → Bool) (xs : List A)
    → All (λ x. test x ≡ true → P x) xs
    → All P (select test xs)
unfolding select
All-selected P test [] h = tt
All-selected P test (x ∷ xs) (p, h) = elim (Bool-cases (test x)) [
  | inl e ↦ rw e (p e, All-selected P test xs h)
  | inr e ↦ rw e (All-selected P test xs h)
]

module _ {A : Type 0} where
  -- A property of the ids of the rows that are due and pass the condition holds of the candidates.
  candidates-All :
      (P : ℕ → Type 0) (extra : Row A → Bool) (limit now : ℕ) (rows : List (Row A))
      → All (λ r. (is_due now r && extra r) ≡ true → P r.id) rows
      → All P (candidates extra limit now rows)
  unfolding candidates
  candidates-All P extra limit now rows h = All-take P limit _ (
      All-map P (λ (r : Row A). r.id) _
        (All-sort _ (λ (r : Row A). P r.id) _
          (All-selected (λ (r : Row A). P r.id) (λ r. is_due now r && extra r) rows h)))

  candidates-length :
      (extra : Row A → Bool) (limit now : ℕ) (rows : List (Row A))
      → length (candidates extra limit now rows) ≤ limit
  unfolding candidates
  candidates-length extra limit now rows = length-take limit _

  -- A row that was claimed is not due, at any time.
  start_sending-not_due : (now now' : ℕ) (r : Row A) → is_due now' (start_sending now r) ≡ false
  unfolding is_due start_sending
  start_sending-not_due now now' r = refl

  -- Two claims, one directly after the other, at any times and with any limits and conditions, take no row
  -- twice: a row that the first one takes is not taken by the second.
  pub claim_table-disjoint :
      (extra extra' : Row A → Bool) (limit limit' now now' : ℕ) (rows : List (Row A))
      → All
          (λ i. is_among (claim_table extra limit now rows).0 i ≡ false)
          (claim_table extra' limit' now' (claim_table extra limit now rows).1).0
  unfolding claim_table
  claim_table-disjoint extra extra' limit limit' now now' rows =
      let ids = candidates extra limit now rows in
      candidates-All (λ i. is_among ids i ≡ false) extra' limit' now' _
        (update-All _ (λ (r : Row A). is_among ids r.id) (start_sending now) rows
          (λ r h d. absurd (ground (arith, start_sending-not_due now now' r))) (λ r h d. h))

count-split {ℓ} :
    {A : Type ℓ} (q d : A → Bool) (xs : List A)
    → count (λ x. q x && d x) xs + count (λ x. q x && not (d x)) xs ≡ count q xs
unfolding count
count-split q d [] = omega arith
count-split q d (x ∷ xs) = ground (arith, count-split q d xs)

-- Each element counts itself.
All-count {ℓ} :
    {A : Type ℓ} (q : A → A → Bool) (d : A → Bool) (xs : List A)
    → ((x : A) → d x ≡ true → q x x ≡ true)
    → All (λ x. d x ≡ true → 1 ≤ count (q x) xs) xs
unfolding count
All-count q d [] h = tt
All-count q d (x ∷ xs) h = (
  λ e. ground (arith, h x e),
  All-mono _ _ xs (λ y k e. ground (arith, k e)) (All-count q d xs h),
)

All-among : (P : ℕ → Type 0) (ids : List ℕ) (n : ℕ) → All P ids → is_among ids n ≡ true → P n
unfolding exists
All-among P [] n h e = absurd (cc)
All-among P (i ∷ ids) n (p, h) e = elim (Bool-cases (i == n)) [
  | inl k ↦ subst P (ground arith) p
  | inr k ↦ All-among P ids n h (ground arith)
]

module _ {A : Type 0} where
  pub claim_table-due :
      (extra : Row A → Bool) (limit now : ℕ) (rows : List (Row A))
      → ((n : ℕ) → count (λ r. r.id == n) rows ≤ 1)
      → (length (claim_table extra limit now rows).0 ≤ limit)
        × All
            (λ r.
              is_among (claim_table extra limit now rows).0 r.id ≡ true
              → (is_due now r && extra r) ≡ true)
            rows
  unfolding claim_table
  claim_table-due extra limit now rows once =
      let due : Row A → Bool = λ r. is_due now r && extra r in
      let found : All (λ i. 1 ≤ count (λ (r : Row A). (r.id == i) && due r) rows)
          (candidates extra limit now rows) =
        candidates-All _ extra limit now rows
          (All-count (λ x r. (r.id == x.id) && due r) due rows (λ x e. ground arith)) in
      let self : All
          (λ x. not (due x) ≡ true → 1 ≤ count (λ (r : Row A). (r.id == x.id) && not (due r)) rows)
          rows =
        All-count (λ x r. (r.id == x.id) && not (due r)) (λ x. not (due x)) rows
          (λ x e. ground arith) in
      (
        candidates-length extra limit now rows,
        All-mono _ _ rows
            (λ r k e. elim (Bool-cases (due r)) [
              | inl d ↦ d
              | inr d ↦ absurd (
                  omega (
                    arith,
                    All-among _ _ r.id found e,
                    k (ap not d),
                    once r.id,
                    count-split (λ (x : Row A). x.id == r.id) due rows,
                  ))
            ])
            self,
      )

  abbrev pub is_claimable : (Row A → Bool) → ℕ → Row A → Bool
  is_claimable extra now r = is_due now r && extra r

  -- Of rows with no id twice, a claim takes no more ids than its limit, and it takes only rows that are
  -- pending or failed, whose time has come, that were attempted fewer than five times and that pass the
  -- condition of the table.
  pub claim_table-IsDue :
      (extra : Row A → Bool) (limit now : ℕ) (rows : List (Row A))
      → ((n : ℕ) → count (λ r. r.id == n) rows ≤ 1)
      → (length (claim_table extra limit now rows).0 ≤ limit)
        × All
            (λ r.
              (is_among (claim_table extra limit now rows).0 r.id && not (is_claimable extra now r))
              ≡ false)
            rows
  claim_table-IsDue extra limit now rows once =
      let h = claim_table-due extra limit now rows once in
      (h.0, All-mono _ _ rows (λ r k. ground (arith, k)) h.1)

three_kinds :
    (a b c : List ℕ) (n : ℕ)
    → length a ≤ n
    → length b ≤ n - length a
    → length c ≤ n - length a - length b
    → length (claims_of "realtime" a ++ (claims_of "stage" b ++ claims_of "combination" c)) ≤ n
three_kinds a b c n k l m = omega (
  arith,
  length-append (claims_of "realtime" a) (claims_of "stage" b ++ claims_of "combination" c),
  length-append (claims_of "stage" b) (claims_of "combination" c),
  length-map {B = Claim} (λ id. record { kind = "realtime"; id = id }) a,
  length-map {B = Claim} (λ id. record { kind = "stage"; id = id }) b,
  length-map {B = Claim} (λ id. record { kind = "combination"; id = id }) c,
  k,
  l,
  m,
)

clamp-le : (n : ℕ) → clamp n 1 200 ≤ 200
unfolding clamp
clamp-le n = ground arith

-- A call claims no more notifications, of the three kinds together, than the number asked for, brought
-- between 1 and 200.
pub claim_market_deliveries-length :
    (wanted now : ℕ) (db : Db)
    → (length (claim_market_deliveries wanted now db).0 ≤ clamp wanted 1 200)
      × (clamp wanted 1 200 ≤ 200)
unfolding claim_market_deliveries claim_table
claim_market_deliveries-length wanted now db = (
  three_kinds _ _ _ (clamp wanted 1 200) (candidates-length _ _ now db.rule_events)
      (candidates-length _ _ now db.stage_windows)
      (candidates-length _ _ now db.combination_windows),
  clamp-le wanted,
)
