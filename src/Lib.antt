-- ===== src/Lib.antt =====
-- DeBox Asset Alert watches wallets and markets and notifies DeBox users. A user holds a subscription
-- to a plan; the plan bounds how many rules, wallets, groups and market projects run; a subscription is
-- paid by a token transfer that the service verifies on the chain. This library models the core of that:
-- the catalog of plans, the check of a payment, and the transactions on the tables by which a payment
-- becomes a subscription and a subscription becomes running rules; the check of a rule, and the alerts and
-- notifications that it leads to; and the rules and the queue of notifications for markets.
--
-- Parts, and how they correspond to the code:
-- Prelude: lists, options, texts and integers over the native numbers, with the lemmas on searches
--   and updates that all parts share; `update` is a statement UPDATE ... WHERE, `select` and `count`
--   are queries.
-- Plans: internal/plans/plans.go. Plans.Types has the plan and its methods, Plans.RuleTypes the tables
--   of rule types, Plans.Catalog NewCatalog, Get and PublicPlans, Plans.Catalog.Tiers the theorems.
-- Store.Tables: the rows of internal/store/models.go and market_models.go and the whole database as one
--   record. Store.Tx: internal/store/store.go, a transaction as a function from the database to an
--   error, or to a value and the new database; a failed transaction leaves the old one.
-- Store.Subscriptions: internal/store/subscriptions.go and effectivePlanCode of entitlements.go;
--   its children prove what the effective plan is and what an activation grants.
-- Store.Pause: pauseExpiredUserResources of internal/store/entitlements.go.
-- Store.Orders: internal/store/orders.go. Store.Orders.Steps makes the operations calls in a
--   sequence, Effects finds the one update that each call makes, History and Keeping prove what every
--   sequence keeps, and Finalize is about the last step of a payment.
-- Store.Rules: internal/store/rules.go. Store.Entitlements: internal/store/entitlements.go and
--   createNotificationGroup of groups.go, with the quotas proved in Quota and the end of a paid plan in
--   Fallback. Store.Reconcile: internal/store/entitlement_reconcile.go and listCombinationMembers of
--   combinations.go; Market and Run are its last loops and its composition, Slots and Bounds the proof.
-- Store.Examples: a small database at which every theorem is applied.
-- Chain: internal/chain/profiles.go, and AmountToUnits and EncodeERC20Transfer of units.go, the latter in
--   Chain.Transfer; Chain.Hex has the two patterns and the numbers that strconv and math/big read, Digits,
--   Numbers and RoundTrip the lemmas on digits. Payment: internal/payment/service.go, where
--   Payment.Evidence decodes and checks what a node answers, Payment.Verify decides and changes the
--   database, and Safety says what must have happened for an order to be paid. The answers of the node,
--   by hash and chain, the reading of a decimal by math/big and the reconciliation of the entitlements are
--   arguments.
--   Payment.RoundTrip is about the transfer that a payer is asked for and the one that is read back.
-- MarketRules: internal/marketrules/evaluator.go, which decides from the rows of a market whether a rule
--   triggers, and the rows that it reads. Snapshots has the rules on the latest snapshot, and
--   Snapshots.Crossing a run of their evaluations; Events has the eligible rows, Events.Matching the
--   conditions on an event and Events.Scan the loop over the events, with its induction in
--   Events.Induction and what it guarantees in Events.Cursor, Events.Delivered and
--   Events.Final; Progress has the rule
--   on the progress of a Four.meme token; Evaluate puts them together, and Repeated evaluates twice.
--   Merge is mergeMarketEvents of internal/marketrules/service.go.
--   Prelude.Rat is math/big.Rat as far as the evaluator uses it, with SetString as an argument. The state
--   of a rule and the metadata of an event are read as decoded JSON, a column that is 0 or 1 as a Boolean.
--   The counts of trades are natural numbers without the wrap-around of int64.
-- MarketDelivery: internal/store/market_delivery.go with its own tables, which hold the columns that it
--   uses. RuleEvents is CreateMarketRuleEvent of internal/store/market_rules.go.
--   Windows is marketWindowBounds, Stage recordMarketStageTrigger with its invariant in Stage.Counts, and
--   Queue the recovery, the claim and the completion of notifications, with what a
--   claim takes in Queue.Claims, what a statement does to a row in Queue.Moves and what sequences of
--   calls keep in Queue.History. The three tables share
--   the columns of a notification, so that the statements, which the code formats with the name of a
--   table, are functions on rows with any other columns.
-- Alerts: the alerts of watch rules. Tables has the tables of migrations/0002_aggregated_notifications.sql
--   and alert_events, Tx their transactions. Events is internal/store/events.go without the statistics of
--   the summary, and the updates of a notification; Windows and Stage are internal/store/aggregations.go,
--   Combination is RecordCombinationTrigger of internal/store/combinations.go, Cleanup is
--   CleanupAggregationHistory of internal/store/aggregation_history.go, and Enabled is
--   ListEnabledWatchRules of internal/store/rules.go. Invariant relates the counts of windows to the
--   triggers on file, which the cleanup ends for the windows whose events it deletes; the modules
--   named Current find the window of a trigger, Running tells which one it must be, and Triggers, Frames and the modules
--   named Outcome have what the trigger does.
-- Monitor: internal/monitor/executor.go, a client of Alerts. Check has the state (the tables and the
--   messages given to the messenger) and World, which holds the answers of everything outside: the chain,
--   the messenger, the clock, the days of a time zone, and the reading and the rounding of 256-bit floats.
--   A failed step keeps what the steps before it have written. Conditions decides, Texts and Escape write
--   the messages, Trigger delivers, Rules checks a rule and Cycle all of them. Effects and Delivery
--   find what a delivery does, Limits and Kinds what a check does, and Crossings, Tags, Safety, Observed and
--   Cycle have the theorems. One check happens at one moment, and its answers from outside may differ from
--   rule to rule.
--
-- How the code is read: a time is a number of seconds, but in Alerts and Monitor, where windows carry the
-- fraction of their anchor, of nanoseconds; the moment of NOW() or time.Now() is an argument; a day has
-- 86400 seconds. An operation of the store is one step: the advisory locks and the
-- row locks, by which the database orders concurrent transactions, are not modelled, nor are the errors
-- of the driver. One counter gives all tables their ids. A status column with a fixed set of values is
-- a data type, in which `live` is the status 'active' of a subscription and `lapsed` the status
-- 'expired' of an order. The unique indices idx_orders_tx_hash_unique and idx_orders_one_open_per_user
-- of migrations/0001_python_baseline.sql are checks that the statements on orders make. Texts are read
-- as ASCII where case and white space matter. A limit of a plan is a natural number, since the catalog
-- has no negative one. Every function is structural recursion, so that no fuel is needed.
--
-- Not modelled: the services above the store other than those named, the timers and locks that start a
-- check or a cycle, the daily summary, the collection of market data, the creation of combinations and
-- the combinations of market rules, the parsing of logs, the sessions, the bot, the pages and the HTTP
-- handlers. An infinity that math/big reads from a text is not modelled, nor is the recovery of a check
-- from a panic, which only the subtraction of two infinities could cause.
pub mod Prelude
pub mod Plans
pub mod Store
pub mod Chain
pub mod Payment
pub mod MarketRules
pub mod MarketDelivery
pub mod Alerts
pub mod Monitor
