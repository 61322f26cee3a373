-- ===== src/MarketDelivery/Queue/Moves.antt =====
-- internal/store/market_delivery.go: what each statement on the notifications does to the rows.
use de_box_asset_alert.Prelude.{
  ℕ, ◌≤◌, String, Bool, true, false, not, ◌&&◌, ◌||◌, ◌⊎◌, inl, inr, ◌≡◌, refl, subst, ◌∙◌, Option,
  List, [], ◌∷◌, ok, All, update, count, exists, ◌==◌, str_eq, leb, arith, Bool-cases,
}
use de_box_asset_alert.Prelude.Queries.{All-mono, All-of}
use de_box_asset_alert.MarketDelivery.Tables.{
  Status, staged, combined, collecting, pending, sending, sent, failed, skipped, Row, RuleEvent,
  WindowEvent, is_queued, is_sending, is_staged, is_combined,
}
use de_box_asset_alert.MarketDelivery.Queue.Claims.{claim_table-due}
use de_box_asset_alert.MarketDelivery.Queue.{
  is_due, is_stale, expire_lease, recover_table, start_sending, claim_table, completed, is_claimed,
  complete_table, mark_sent, send_members, sent_members,
}

-- What has become of the rows of a table, one by one.
abbrev pub Pairwise : {A : Type 0} → (A → A → Type 0) → List A → List A → Type 0
Pairwise R [] [] = Unit
Pairwise R [] (y ∷ ys) = ⊥
Pairwise R (x ∷ xs) [] = ⊥
Pairwise R (x ∷ xs) (y ∷ ys) = R x y × Pairwise R xs ys

abbrev pub is_finished : Status → Bool
is_finished sent = true
is_finished skipped = true
is_finished _ = false

module _ {A : Type 0} where
  -- A notification that is to be sent was attempted fewer than five times, and none more often.
  abbrev pub IsBounded : Row A → Type 0
  IsBounded r =
      (r.attempts ≤ 5) × (((is_queued r.status || is_sending r.status) && leb 5 r.attempts) ≡ false)

  -- A row stays the same notification, and once it is sent or given up it does not change.
  abbrev pub Follows : Row A → Row A → Type 0
  Follows r r' =
      (r'.id ≡ r.id)
      × ((r.attempts ≤ r'.attempts) × ((not (is_finished r.status) ≡ true) ⊎ (r' ≡ r)))

  Follows-refl : (r : Row A) → Follows r r
  Follows-refl r = (refl, (omega arith, inr refl))

  Follows-trans : (a b c : Row A) → Follows a b → Follows b c → Follows a c
  Follows-trans a b c (i, (n, inl h)) (j, (m, k)) = (j ∙ i, (omega (arith, n, m), inl h))
  Follows-trans a b c (i, (n, inr h)) g = subst (λ x. Follows x c) h g

  Pairwise-refl : (rows : List (Row A)) → Pairwise Follows rows rows
  Pairwise-refl [] = tt
  Pairwise-refl (r ∷ rows) = (Follows-refl r, Pairwise-refl rows)

  Pairwise-trans :
      (a b c : List (Row A)) → Pairwise Follows a b → Pairwise Follows b c → Pairwise Follows a c
  Pairwise-trans [] [] [] g h = tt
  Pairwise-trans [] [] (z ∷ c) g h = elim h [ ]
  Pairwise-trans [] (y ∷ b) c g h = elim g [ ]
  Pairwise-trans (x ∷ a) [] c g h = elim g [ ]
  Pairwise-trans (x ∷ a) (y ∷ b) [] g h = elim h [ ]
  Pairwise-trans (x ∷ a) (y ∷ b) (z ∷ c) (p, g) (q, h) =
      (Follows-trans x y z p q, Pairwise-trans a b c g h)

  -- The rows after a statement, which follow those before it and are bounded if those are.
  abbrev pub Advances : List (Row A) → List (Row A) → Type 0
  Advances rows rows' = Pairwise Follows rows rows' × (All IsBounded rows → All IsBounded rows')

  pub Advances-refl : (rows : List (Row A)) → Advances rows rows
  Advances-refl rows = (Pairwise-refl rows, λ h. h)

  abbrev Moves : Row A → Row A → Type 0
  Moves r r' = Follows r r' × (IsBounded r → IsBounded r')

  Advances-update :
      (test : Row A → Bool) (f : Row A → Row A) (rows : List (Row A))
      → All (λ r. test r ≡ true → Moves r (f r)) rows
      → Advances rows (update test f rows)
  unfolding update
  Advances-update test f [] h = (tt, λ b. b)
  Advances-update test f (r ∷ rows) (m, h) =
      let ih = Advances-update test f rows h in
      elim (Bool-cases (test r)) [
        | inl e ↦ rw e (((m e).0, ih.0), λ (b, bs). ((m e).1 b, ih.1 bs))
        | inr e ↦ rw e ((Follows-refl r, ih.0), λ (b, bs). (b, ih.1 bs))
      ]

  pub Advances-trans : (a b c : List (Row A)) → Advances a b → Advances b c → Advances a c
  Advances-trans a b c (g, k) (h, l) = (Pairwise-trans a b c g h, λ x. l (k x))

  pub recover_table-Advances :
      (lease now : ℕ) (rows : List (Row A)) → Advances rows (recover_table lease now rows).1
  unfolding recover_table is_stale expire_lease
  recover_table-Advances lease now rows =
      Advances-update (is_stale lease now) (expire_lease now) rows (
        All-of _ rows
          (λ r e. ((refl, (omega arith, inl (ground arith))), λ (n, b). (n, ground arith))))

  pub claim_table-Advances :
      (extra : Row A → Bool) (limit now : ℕ) (rows : List (Row A))
      → ((n : ℕ) → count (λ r. r.id == n) rows ≤ 1)
      → Advances rows (claim_table extra limit now rows).1
  unfolding claim_table start_sending is_due
  claim_table-Advances extra limit now rows once = Advances-update _ (start_sending now) rows (
      All-mono _ _ rows
        (λ r d e.
          (let due = d e in
            ((refl, (omega arith, inl (ground arith))), λ (n, b). (n, ground arith))))
        (claim_table-due extra limit now rows once).1)

  completed-Moves :
      (message : Option String) (delivery_error : String) (now : ℕ) (r : Row A)
      → is_sending r.status ≡ true
      → Moves r (completed message delivery_error now r)
  unfolding completed
  completed-Moves message delivery_error now r e = elim (Bool-cases (str_eq delivery_error "")) [
    | inl d ↦ rw d ((refl, (omega arith, inl (ground arith))), λ (n, b). (ground arith, refl))
    | inr d ↦
        rw d ((refl, (omega arith, inl (ground arith))), λ (n, b). (ground arith, ground arith))
  ]

  pub complete_table-Advances :
      (id : ℕ) (message : Option String) (delivery_error : String) (now : ℕ)
      (rows rows' : List (Row A))
      → complete_table id message delivery_error now rows ≡ ok rows'
      → Advances rows rows'
  unfolding complete_table is_claimed
  complete_table-Advances id message delivery_error now rows rows' h =
      let all =
        Advances-update (is_claimed id) (completed message delivery_error now) rows
          (All-of _ rows (λ r e. completed-Moves message delivery_error now r (ground arith))) in
      elim (Bool-cases (exists (is_claimed id) rows)) [
        | inl e ↦ subst (Advances rows) (cc) all
        | inr e ↦ absurd (cc)
      ]

  -- The ids of the rows do not change.
  Pairwise-count :
      (n : ℕ) (rows rows' : List (Row A))
      → Pairwise Follows rows rows'
      → count (λ r. r.id == n) rows' ≡ count (λ r. r.id == n) rows
  unfolding count
  Pairwise-count n [] [] h = refl
  Pairwise-count n [] (y ∷ ys) h = elim h [ ]
  Pairwise-count n (x ∷ xs) [] h = elim h [ ]
  Pairwise-count n (x ∷ xs) (y ∷ ys) (f, h) = ground (arith, f.0, Pairwise-count n xs ys h)

module _ {A : Type 0} where
  -- No id twice.
  abbrev pub AreDistinct : List (Row A) → Type 0
  AreDistinct rows = (n : ℕ) → count (λ r. r.id == n) rows ≤ 1

  pub AreDistinct-after :
      (rows rows' : List (Row A)) → Advances rows rows' → AreDistinct rows → AreDistinct rows'
  AreDistinct-after rows rows' a d n = omega (arith, Pairwise-count n rows rows' a.0, d n)

send_members-Advances :
    (waits : Status → Bool) (links : List WindowEvent) (window_id : ℕ) (message : Option String)
    (now : ℕ) (rows : List (Row RuleEvent))
    → ((s : Status) → waits s ≡ true → is_finished s ≡ false)
    → Advances rows (send_members waits links window_id message now rows)
unfolding send_members mark_sent
send_members-Advances waits links window_id message now rows w =
    Advances-update _ (mark_sent message now) rows (
      All-of _ rows
        (λ r e. ((refl, (omega arith, inl (ground (arith, w r.status)))), λ (n, b). (n, refl))))

pub staged-open : (s : Status) → is_staged s ≡ true → is_finished s ≡ false
staged-open staged h = refl
staged-open combined h = absurd (cc)
staged-open collecting h = refl
staged-open pending h = refl
staged-open sending h = refl
staged-open sent h = absurd (cc)
staged-open failed h = refl
staged-open skipped h = absurd (cc)

pub combined-open : (s : Status) → is_combined s ≡ true → is_finished s ≡ false
combined-open s h = ground arith

pub sent_members-Advances :
    (waits : Status → Bool) (links : List WindowEvent) (window_id : ℕ) (message : Option String)
    (delivery_error : String) (now : ℕ) (rows : List (Row RuleEvent))
    → ((s : Status) → waits s ≡ true → is_finished s ≡ false)
    → Advances rows (sent_members waits links window_id message delivery_error now rows)
unfolding sent_members
sent_members-Advances waits links window_id message delivery_error now rows w =
    elim (Bool-cases (str_eq delivery_error "")) [
      | inl e ↦ rw e (send_members-Advances waits links window_id message now rows w)
      | inr e ↦ rw e (Advances-refl rows)
    ]
