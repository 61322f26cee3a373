-- ===== src/Alerts/Combination/Members.antt =====
-- internal/store/combinations.go: the members of a window, their counts and their progress.
use de_box_asset_alert.Prelude.{
  ℕ, ◌≤◌, ◌<◌, Bool, true, false, not, inl, inr, ◌≡◌, refl, ◌&&◌, Option, none, some, List, [], ◌∷◌,
  ◌++◌, All, map, count, find, exists, select, update, length, ◌==◌, leb, ltb, arith, Bool-cases,
}
use de_box_asset_alert.Prelude.Queries.{All-update}
use de_box_asset_alert.Prelude.Sort.{sort, count-sort}
use de_box_asset_alert.Prelude.Updates.{All-update_to}
use de_box_asset_alert.Store.Tables.{WatchRule}
use de_box_asset_alert.Alerts.Tables.{WindowMember, TriggerEvent, AlertMember, AlertDb}
use de_box_asset_alert.Alerts.Combination.{
  MemberProgress, snapshot, is_row_of, count_member, progress_row, progress_of,
  combination_progress, all_combination_members_reached, minimum_combination_members,
}
use de_box_asset_alert.Alerts.Invariant.{Inv, events_by, has_members, count_fresh}
use de_box_asset_alert.Alerts.Triggers.{Fits}

-- New members are those of the new window.
pub has_members-snapshot :
    (n now id : ℕ) (sel : List AlertMember) (ms : List WindowMember)
    → id < n
    → has_members id (map (snapshot n now) sel ++ ms) ≡ has_members id ms
unfolding exists snapshot
has_members-snapshot n now id [] ms b = refl
has_members-snapshot n now id (m ∷ sel) ms b =
    ground (arith, has_members-snapshot n now id sel ms b)

pub snapshot-All :
    (P : WindowMember → Type 0) (n now : ℕ) (sel : List AlertMember)
    → ((m : AlertMember) → P (snapshot n now m))
    → All P (map (snapshot n now) sel)
snapshot-All P n now [] f = tt
snapshot-All P n now (m ∷ sel) f = (f m, snapshot-All P n now sel f)

events_by-le :
    (window_id rule_id : ℕ) (events : List TriggerEvent)
    → events_by window_id rule_id events
      ≤ count (λ (e : TriggerEvent). e.window_id == window_id) events
unfolding count
events_by-le w r [] = omega arith
events_by-le w r (e ∷ events) = ground (arith, events_by-le w r events)

pub events_by-fresh :
    (n rule_id : ℕ) (events : List TriggerEvent)
    → All (λ (e : TriggerEvent). e.window_id < n) events
    → events_by n rule_id events ≡ 0
events_by-fresh n rule_id events h = omega (
  arith,
  events_by-le n rule_id events,
  count_fresh (λ (e : TriggerEvent). e.window_id) n events h,
)

has_members-update :
    (n w r now : ℕ) (ms : List WindowMember)
    → has_members n (update (is_row_of w r) (count_member now) ms) ≡ has_members n ms
unfolding exists update count_member
has_members-update n w r now [] = refl
has_members-update n w r now (m ∷ ms) = ground (arith, has_members-update n w r now ms)

-- The trigger of a member's rule is one more of that member.
pub count_member-Fits :
    (e : TriggerEvent) (now : ℕ) (db : AlertDb)
    → Inv db
    → Fits e db
        (update (is_row_of e.window_id e.watch_rule_id) (count_member now) db.window_members)
unfolding is_row_of count_member count
count_member-Fits e now db inv = record {
  counted =
      All-update_to
        (λ (m : WindowMember).
          m.trigger_count ≡ events_by m.window_id m.watch_rule_id db.trigger_events)
        (λ (m : WindowMember).
          m.trigger_count ≡ events_by m.window_id m.watch_rule_id (e ∷ db.trigger_events))
        (is_row_of e.window_id e.watch_rule_id) (count_member now) (λ m t k. ground (arith, k))
        (λ m t k. ground (arith, k)) db.window_members inv.members;
  is_old =
      All-update (λ (m : WindowMember). m.window_id < db.next_id)
        (is_row_of e.window_id e.watch_rule_id) (count_member now) db.window_members (λ m t k. k)
        inv.old_members;
  same = λ n. has_members-update n e.window_id e.watch_rule_id now db.window_members;
}

-- A member whose rule exists.
abbrev pub has_rule : List WatchRule → WindowMember → Bool
has_rule rules m = exists (λ (r : WatchRule). r.id == m.watch_rule_id) rules

find-exists {ℓ} :
    {A : Type ℓ} (test : A → Bool) (xs : List A) {x : A}
    → find test xs ≡ some x
    → exists test xs ≡ true
unfolding find exists
find-exists test [] h = absurd (cc)
find-exists test (y ∷ xs) {x} h = elim (Bool-cases (test y)) [
  | inl e ↦ ground arith
  | inr e ↦ ground (arith, find-exists test xs {x = x})
]

find-not_exists {ℓ} :
    {A : Type ℓ} (test : A → Bool) (xs : List A) → find test xs ≡ none → exists test xs ≡ false
unfolding find exists
find-not_exists test [] h = refl
find-not_exists test (y ∷ xs) h = ground (arith, find-not_exists test xs)

abbrev is_short : MemberProgress → Bool
is_short p = ltb p.trigger_count p.required_trigger_count

-- A member of a window, with a rule, that lags behind.
abbrev pub lags : List WatchRule → WindowMember → Bool
lags rules m = has_rule rules m && ltb m.trigger_count m.required_trigger_count

-- The progress of members has as many rows, and as many that lag behind, as there are members with a
-- rule.
abbrev SameCounts : List WatchRule → List WindowMember → List MemberProgress → Type 0
SameCounts rules ms ps =
    (length ps ≡ count (has_rule rules) ms) × (count is_short ps ≡ count (lags rules) ms)

progress_row-SameCounts :
    (rules : List WatchRule) (m : WindowMember) (ms : List WindowMember) (ps : List MemberProgress)
    (found : Option WatchRule)
    → find (λ (r : WatchRule). r.id == m.watch_rule_id) rules ≡ found
    → SameCounts rules ms ps
    → SameCounts rules (m ∷ ms) (progress_row m found ps)
unfolding progress_row count
progress_row-SameCounts rules m ms ps none e (a, b) =
    let gone = find-not_exists _ rules e in (ground (arith, gone, a), ground (arith, gone, b))
progress_row-SameCounts rules m ms ps (some r) e (a, b) =
    let kept = find-exists _ rules e in (ground (arith, kept, a), ground (arith, kept, b))

progress_of-SameCounts :
    (rules : List WatchRule) (ms : List WindowMember) → SameCounts rules ms (progress_of rules ms)
unfolding progress_of count
progress_of-SameCounts rules [] = (refl, refl)
progress_of-SameCounts rules (m ∷ ms) =
    progress_row-SameCounts rules m ms (progress_of rules ms) _ refl
      (progress_of-SameCounts rules ms)

count-select {ℓ} :
    {A : Type ℓ} (test q : A → Bool) (xs : List A)
    → count test (select q xs) ≡ count (λ x. q x && test x) xs
unfolding count select
count-select test q [] = refl
count-select test q (x ∷ xs) = ground (arith, count-select test q xs)

exists_count {ℓ} :
    {A : Type ℓ} (test : A → Bool) (xs : List A) → not (exists test xs) ≡ (count test xs == 0)
unfolding exists count
exists_count test [] = refl
exists_count test (x ∷ xs) = ground (arith, exists_count test xs)

-- All members of a window have been reached exactly if at least two of its rows have a rule, and none of
-- these lags behind.
pub all_reached :
    (window_id : ℕ) (db : AlertDb)
    → all_combination_members_reached (combination_progress window_id db) ≡ (
        leb 2 (
          count
            (λ (m : WindowMember). (m.window_id == window_id) && has_rule db.watch_rules m)
            db.window_members)
        && (count
              (λ (m : WindowMember). (m.window_id == window_id) && lags db.watch_rules m)
              db.window_members
            == 0))
unfolding all_combination_members_reached combination_progress minimum_combination_members
all_reached window_id db =
    let of_window : WindowMember → Bool = λ m. m.window_id == window_id in
    let before : WindowMember → WindowMember → Bool = λ a b. ltb a.watch_rule_id b.watch_rule_id in
    let rows = select of_window db.window_members in
    let (size, short) = progress_of-SameCounts db.watch_rules (sort before rows) in
    let ps = progress_of db.watch_rules (sort before rows) in
    ground (
      arith,
      size,
      short,
      exists_count is_short ps,
      count-sort before (has_rule db.watch_rules) rows,
      count-sort before (lags db.watch_rules) rows,
      count-select (has_rule db.watch_rules) of_window db.window_members,
      count-select (lags db.watch_rules) of_window db.window_members,
    )
