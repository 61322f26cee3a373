-- ===== src/MarketDelivery/RuleEvents.antt =====
-- internal/store/market_rules.go: CreateMarketRuleEvent, which records a trigger of a rule once.
use de_box_asset_alert.Prelude.{
  ℕ, suc, String, Bool, true, false, not, ◌&&◌, ◌||◌, ◌≡◌, refl, sym, ◌∙◌, ap, subst, Option, none,
  some, List, ◌∷◌, Result, ok, err, exists, find, take_runes, to_lower, trim_space, str_eq, ◌==◌,
  arith, inl, inr, Bool-cases, if◌then◌else◌,
}
use de_box_asset_alert.MarketDelivery.Tables.{
  Status, staged, combined, skipped, pending, Row, RuleEvent, DeliveryRule, DeliveryProject,
  ChainEvent, ProjectDeployment, AssetDeployment, RuleDeployment, Db, DeliveryError,
  invalid_market_rule_event,
}

pub record CreateParams : Type 0 where
  pub market_rule_id : ℕ
  pub market_event_id : ℕ
  pub trigger_key : String
  pub notification_status : String
  pub notification_error : String

unfoldable pub initial_status : String → Status
unfolding to_lower trim_space
initial_status value =
    let status = to_lower (trim_space value) in
    if str_eq status "staged"
    then staged
    else if str_eq status "combined"
    then combined
    else if str_eq status "skipped"
    then skipped
    else pending

-- A deployment of the project on the chain of the event, among those that the rule covers.
unfoldable pub is_deployed : Db → DeliveryRule → DeliveryProject → ChainEvent → Bool
unfolding exists
is_deployed db r p e =
    exists
      (λ (d : ProjectDeployment).
        (d.project_id == p.id)
        && (d.is_active
            && (exists
                  (λ (a : AssetDeployment).
                    (a.id == d.asset_deployment_id)
                    && ((a.chain_id == e.chain_id) && str_eq a.token_address e.token_address))
                  db.asset_deployments
                && (str_eq r.deployment_scope "all"
                    || exists
                        (λ (x : RuleDeployment).
                          (x.market_rule_id == r.id) && (x.project_deployment_id == d.id))
                        db.rule_deployments))))
      db.project_deployments

-- The rows that the INSERT selects from.
unfoldable pub is_about : Db → ℕ → ℕ → Bool
unfolding exists is_deployed
is_about db rule_id event_id =
    exists
      (λ (r : DeliveryRule).
        (r.id == rule_id)
        && exists
            (λ (p : DeliveryProject).
              (p.id == r.project_id)
              && exists
                  (λ (e : ChainEvent).
                    (e.id == event_id)
                    && (not e.reorged
                        && (((p.chain_id == e.chain_id) && str_eq p.token_address e.token_address)
                            || is_deployed db r p e)))
                  db.events)
            db.projects)
      db.rules

-- UNIQUE (market_rule_id, market_event_id) and UNIQUE (market_rule_id, trigger_key)
abbrev pub is_duplicate : ℕ → ℕ → String → Row RuleEvent → Bool
is_duplicate rule_id event_id key r =
    (r.columns.market_rule_id == rule_id)
    && ((r.columns.market_event_id == event_id) || str_eq r.columns.trigger_key key)

unfoldable pub new_rule_event : ℕ → ℕ → CreateParams → String → Row RuleEvent
unfolding initial_status take_runes
new_rule_event id now params key = record {
  id = id;
  status = initial_status params.notification_status;
  message_id = none;
  error = take_runes 2000 params.notification_error;
  attempts = 0;
  attempted_at = none;
  sent_at = none;
  next_attempt_at = now;
  columns = record {
    market_rule_id = params.market_rule_id;
    market_event_id = params.market_event_id;
    trigger_key = key;
  };
}

abbrev pub with_row : Row RuleEvent → Db → Db
with_row row db = record db { rule_events = row ∷ db.rule_events; next_id = suc db.next_id }

-- The INSERT adds its row if the rule is about the event and no row stands in the way; a row that does
-- is returned in its place, the first one since the code asks for one without an order.
unfoldable pub insert_or_existing :
    Bool
    → Option (Row RuleEvent)
    → Row RuleEvent
    → Db
    → Result DeliveryError ((Row RuleEvent × Bool) × Db)
insert_or_existing about (some existing) row db = ok ((existing, false), db)
insert_or_existing true none row db = ok ((row, true), with_row row db)
insert_or_existing false none row db = err invalid_market_rule_event

abbrev pub is_invalid : CreateParams → Bool
unfolding trim_space
is_invalid params =
    (params.market_rule_id == 0)
    || ((params.market_event_id == 0) || str_eq (trim_space params.trigger_key) "")

abbrev duplicate : CreateParams → Row RuleEvent → Bool
unfolding trim_space
duplicate params =
    is_duplicate params.market_rule_id params.market_event_id (trim_space params.trigger_key)

-- The row, and whether it is new.
unfoldable pub create_market_rule_event :
    CreateParams → ℕ → Db → Result DeliveryError ((Row RuleEvent × Bool) × Db)
unfolding is_invalid duplicate is_about find new_rule_event insert_or_existing
create_market_rule_event params now db =
    if is_invalid params
    then err invalid_market_rule_event
    else insert_or_existing (is_about db params.market_rule_id params.market_event_id)
        (find (duplicate params) db.rule_events)
        (new_rule_event db.next_id now params (trim_space params.trigger_key)) db

find-new :
    (params : CreateParams) (id now : ℕ) (rows : List (Row RuleEvent))
    → find (duplicate params) (new_rule_event id now params (trim_space params.trigger_key) ∷ rows)
      ≡ some (new_rule_event id now params (trim_space params.trigger_key))
unfolding find duplicate new_rule_event
find-new params id now rows = ground arith

abbrev WasInserted :
    Bool → Option (Row RuleEvent) → Row RuleEvent → Db → Row RuleEvent → Db → Type 0
WasInserted about found row db row' db' = (row ≡ row') × (with_row row db ≡ db')

-- Only an insertion says that the row is new.
insert_or_existing-new :
    (about : Bool) (found : Option (Row RuleEvent)) (row : Row RuleEvent) (db : Db)
    {row' : Row RuleEvent} {db' : Db}
    → insert_or_existing about found row db ≡ ok ((row', true), db')
    → WasInserted about found row db row' db'
unfolding insert_or_existing
insert_or_existing-new about (some existing) row db h = absurd (cc)
insert_or_existing-new true none row db h = (cc, cc)
insert_or_existing-new false none row db h = absurd (cc)

abbrev created_row : CreateParams → ℕ → Db → Row RuleEvent
unfolding new_rule_event trim_space
created_row params now db = new_rule_event db.next_id now params (trim_space params.trigger_key)

-- An error is no success.
refused_not_ok :
    (outcome : Result DeliveryError ((Row RuleEvent × Bool) × Db))
    {result : (Row RuleEvent × Bool) × Db}
    → outcome ≡ err invalid_market_rule_event
    → outcome ≡ ok result
    → ⊥
refused_not_ok outcome e h = cc

create-invalid :
    (params : CreateParams) (now : ℕ) (db : Db)
    → is_invalid params ≡ true
    → create_market_rule_event params now db ≡ err invalid_market_rule_event
unfolding create_market_rule_event
create-invalid params now db e = rw (e, create_market_rule_event) refl

create-valid :
    (params : CreateParams) (now : ℕ) (db : Db)
    → is_invalid params ≡ false
    → create_market_rule_event params now db
      ≡ insert_or_existing
          (is_about db params.market_rule_id params.market_event_id)
          (find (duplicate params) db.rule_events)
          (created_row params now db)
          db
unfolding create_market_rule_event created_row
create-valid params now db e = rw (e, create_market_rule_event) refl

-- The second call finds the row of the first one.
create-found :
    (params : CreateParams) (now now' : ℕ) (db : Db)
    → is_invalid params ≡ false
    → create_market_rule_event params now' (with_row (created_row params now db) db)
      ≡ ok ((created_row params now db, false), with_row (created_row params now db) db)
unfolding created_row insert_or_existing
create-found params now now' db e =
    create-valid params now' (with_row (created_row params now db) db) e
    ∙ ap
        (λ found.
          insert_or_existing
            (is_about (with_row (created_row params now db) db) params.market_rule_id
              params.market_event_id)
            found (created_row params now' (with_row (created_row params now db) db))
            (with_row (created_row params now db) db))
        (find-new params db.next_id now db.rule_events)

-- A trigger is recorded once: after a call that recorded one, a call with the same parameters, at any
-- time, returns the row that is there, says that it is not new, and changes nothing.
pub create_market_rule_event-again :
    (params : CreateParams) (now now' : ℕ) (db : Db) {row : Row RuleEvent} {db' : Db}
    → create_market_rule_event params now db ≡ ok ((row, true), db')
    → create_market_rule_event params now' db' ≡ ok ((row, false), db')
create_market_rule_event-again params now now' db {row} {db'} h =
    elim (Bool-cases (is_invalid params)) [
      | inl e ↦ absurd (
          refused_not_ok (create_market_rule_event params now db) (create-invalid params now db e)
            h)
      | inr e ↦
          (let new =
              insert_or_existing-new _ _ (created_row params now db) db
                (sym (create-valid params now db e) ∙ h) in
            subst (λ r. create_market_rule_event params now' db' ≡ ok ((r, false), db')) new.0
              (subst
                (λ d.
                  create_market_rule_event params now' d
                  ≡ ok ((created_row params now db, false), d))
                new.1 (create-found params now now' db e)))
    ]
