-- ===== src/Monitor/Effects.antt =====
-- internal/monitor/executor.go: what the delivery of a trigger does to the alerts and to the messages.
use de_box_asset_alert.Prelude.{
  ℕ, suc, ◌+◌, ◌≤◌, String, Bool, true, false, inl, inr, ◌≡◌, refl, ap, ◌&&◌, Option, none, some,
  Result, ok, err, List, count, length, ◌==◌, arith,
}
use de_box_asset_alert.Prelude.Queries.{count-update_same}
use de_box_asset_alert.Prelude.Single.{indicator, count-update_le}
use de_box_asset_alert.Store.Tables.{WatchRule}
use de_box_asset_alert.Alerts.Tables.{NoticeStatus, AlertEvent, AlertDb, is_pending, sent, failed}
use de_box_asset_alert.Alerts.Events.{
  attempt_event, attempt, owns, is_on_day, count_daily_alert_events,
}
use de_box_asset_alert.Alerts.Frames.{Frame}
use de_box_asset_alert.Monitor.Check.{
  World, Message, State, CheckError, RuleStatus, alerted, baseline, no_change, RuleResult,
  new_result,
}
use de_box_asset_alert.Monitor.Trigger.{realtime_result, record_realtime}
use de_box_asset_alert.Monitor.Trigger.Realtime.{
  unsettled, has_arrived, arrived, settle, Sent, delivered, refused, record_and_send-cases,
}

abbrev pub is_alerted : RuleStatus → Bool
is_alerted alerted = true
is_alerted _ = false

-- A check says `alerted` exactly if a message of it has arrived.
abbrev pub Reported : List Message → Result CheckError RuleResult × State → Type 0
Reported before (ok result, s) =
    arrived s.messages ≡ arrived before + indicator (is_alerted result.status)
Reported before (err e, s) = arrived s.messages ≤ suc (arrived before)

-- A check that found nothing to report.
abbrev pub is_quiet : RuleStatus → Bool
is_quiet baseline = true
is_quiet no_change = true
is_quiet _ = false

abbrev pub Loud : Result CheckError RuleResult → Type 0
Loud (ok result) = is_quiet result.status ≡ false
Loud (err e) = Unit

abbrev pub daily : World → String → String → AlertDb → ℕ
daily w user timezone db = count_daily_alert_events w.day_in user timezone w.now db

-- The rules stay, there is one alert more that day at most, none of them waits for its notification, and
-- one message at most has been given to the messenger.
pub record Effect (w : World) (user timezone : String) (db : AlertDb) (ms : List Message)
    (r : Result CheckError RuleResult × State) : Type 0 where
  pub rules : r.1.db.watch_rules ≡ db.watch_rules
  pub one_alert : daily w user timezone r.1.db ≤ suc (daily w user timezone db)
  pub settled : unsettled r.1.db ≤ unsettled db
  pub one_message : length r.1.messages ≤ suc (length ms)
  pub reported : Reported ms r
  pub loud : Loud r.0

attempt-settled :
    (status : NoticeStatus) (message_id : Option String) (error : String) (now : ℕ) (e : AlertEvent)
    → is_pending status ≡ false
    → is_pending (attempt_event status message_id error now e).notice.status ≡ false
unfolding attempt_event attempt
attempt-settled status message_id error now e h = h

settle-unsettled :
    (status : NoticeStatus) (message_id : Option String) (error : String) (now : ℕ) (e : AlertEvent)
    (db : AlertDb)
    → is_pending status ≡ false
    → unsettled (settle status message_id error now e db) ≤ unsettled db
unfolding count
settle-unsettled status message_id error now e db h = ground (
  arith,
  attempt-settled status message_id error now e h,
  count-update_le (λ (x : AlertEvent). is_pending x.notice.status) (λ x. x.id == e.id)
      (attempt_event status message_id error now) db.alert_events
      (λ x t p. absurd (ground (arith, attempt-settled status message_id error now x h, p))),
)

pub arrived_ok : (m : Message) (id : String) → m.outcome ≡ ok id → has_arrived m ≡ true
arrived_ok m id e = rw e refl

module _ (w : World) (user timezone : String) where
  settle-daily :
      (status : NoticeStatus) (message_id : Option String) (error : String) (now : ℕ)
      (e : AlertEvent) (db : AlertDb)
      → daily w user timezone (settle status message_id error now e db)
        ≤ suc (daily w user timezone db)
  unfolding count count_daily_alert_events attempt_event is_on_day
  settle-daily status message_id error now e db =
      let q : AlertEvent → Bool =
        λ x. owns db.watch_rules user x.watch_rule_id && is_on_day w.day_in timezone w.now x in
      let rest =
        count-update_same q (λ x. x.id == e.id) (attempt_event status message_id error now)
          db.alert_events (λ x t. refl) in
      ground (arith, rest)

  Frame-daily :
      (db db' : AlertDb) → Frame db db' → daily w user timezone db' ≡ daily w user timezone db
  unfolding count_daily_alert_events
  Frame-daily db db' f = rw (f.events, f.rules) refl

  Like-unsettled : (db db' : AlertDb) → Frame db db' → unsettled db' ≡ unsettled db
  Like-unsettled db db' f = ap (count (λ (e : AlertEvent). is_pending e.notice.status)) f.events

  -- A result that comes with other columns of the notifications and of the windows, and a message or
  -- none.
  pub framed :
      (db db' : AlertDb) (ms : List Message) (r : Result CheckError RuleResult) (ms' : List Message)
      → Frame db db'
      → length ms' ≤ suc (length ms)
      → Reported ms (r, record { db = db'; messages = ms' })
      → Loud r
      → Effect w user timezone db ms (r, record { db = db'; messages = ms' })
  framed db db' ms r ms' f one reported loud = record {
    rules = f.rules;
    one_alert = omega (arith, Frame-daily db db' f);
    settled = omega (arith, Like-unsettled db db' f);
    one_message = one;
    reported = reported;
    loud = loud;
  }

  sent_event :
      (rule : WatchRule) (current : String) (event : AlertEvent) (db0 db : AlertDb)
      (ms : List Message) (r : Result CheckError AlertEvent × State)
      → Frame db0 db
      → Sent event w.now db ms r
      → Effect w user timezone db0 ms (realtime_result rule current r)
  unfolding realtime_result new_result count
  sent_event rule current event db0 db ms _ f (delivered m id e) = record {
    rules = f.rules;
    one_alert = omega (arith, settle-daily sent (some id) "" w.now event db, Frame-daily db0 db f);
    settled =
        omega
          (arith, settle-unsettled sent (some id) "" w.now event db refl, Like-unsettled db0 db f);
    one_message = omega arith;
    reported = ground (arith, arrived_ok m id e);
    loud = refl;
  }
  sent_event rule current event db0 db ms _ f (refused m message e) = record {
    rules = f.rules;
    one_alert =
        omega (arith, settle-daily failed none message w.now event db, Frame-daily db0 db f);
    settled =
        omega (
          arith,
          settle-unsettled failed none message w.now event db refl,
          Like-unsettled db0 db f,
        );
    one_message = omega arith;
    reported = ground arith;
    loud = tt;
  }

  pub record_realtime-Effect :
      (rule : WatchRule) (previous : Option String) (current note : String) (db : AlertDb)
      (ms : List Message)
      → Effect w user timezone db ms
          (record_realtime w rule previous current note (record { db = db; messages = ms }))
  unfolding record_realtime realtime_result
  record_realtime-Effect rule previous current note db ms =
      elim (record_and_send-cases w rule previous current note db ms) [
        | inl e ↦ rw e (
            framed db db ms _ ms (record { events = refl; rules = refl }) (omega arith)
              (omega arith) tt)
        | inr (event, p, db', events, rules, out) ↦
            sent_event rule current event db db' ms _ (record { events = events; rules = rules })
              out
      ]
