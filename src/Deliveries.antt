-- ===== src/Deliveries.antt =====
-- apps/backend/src/services/notification-queue.ts: the outbox of deliveries, its retries and its
-- rate limit. The table pairs each row with its id, the unique key, and lists the rows by `at`,
-- oldest first. The table
-- of connectors, whether an event's JSON can be read and the outcome of the attempt at a row (a
-- send that throws is a failure) are arguments; the clock of a tick is one time. A row's `ok` only
-- repeats its status and is left out.
pub mod RateLimit
pub mod Retries
pub mod Ticks
mod Tests
use Prim.Native.String.{String}
use home_server_interface.Base.{
  ℕ, ◌+◌, ◌-◌, Bool, true, false, ◌&&◌, ◌||◌, not, List, [], ◌∷◌, Option, none, some, get_or,
  str_eq, if◌then◌else◌, ltb, leb, ◌==◌, length, get_elem?, take, filter, max, map, modify,
}

abbrev pub max_attempts : ℕ
max_attempts = 3

abbrev pub retry_delays_ms : List ℕ
retry_delays_ms = 2000 ∷ 10000 ∷ []

abbrev pub batch_size : ℕ
batch_size = 20

pub data Status : Type 0 where
  pending sending sent failed : Status

pub record Delivery : Type 0 where
  pub connector_id : String
  pub event : String
  pub test : Bool
  pub status : Status
  pub attempts : ℕ
  pub next_attempt_at : ℕ
  pub sent_at : Option ℕ
  pub error : String

pub record DeliveryResult : Type 0 where
  pub ok : Bool
  pub error : Option String

pub record Connector : Type 0 where
  pub enabled : Bool
  pub rate_limit_per_minute : ℕ

abbrev last_delay : ℕ
last_delay = get_or (get_elem? retry_delays_ms (length retry_delays_ms - 1)) 0

-- The row after an attempt.
unfoldable pub plan_after_attempt : ℕ → DeliveryResult → ℕ → Delivery → Delivery
plan_after_attempt attempts_before result now row =
    let attempts = attempts_before + 1 in
    if result.ok
    then record row {
      status = sent;
      attempts = attempts;
      next_attempt_at = now;
      sent_at = some now;
      error = "";
    }
    else let error = get_or result.error "unknown error" in
      if leb max_attempts attempts
      then record row {
        status = failed;
        attempts = attempts;
        next_attempt_at = now;
        sent_at = some now;
        error = error;
      }
      else let delay = get_or (get_elem? retry_delays_ms (attempts - 1)) last_delay in
        record row {
          status = pending;
          attempts = attempts;
          next_attempt_at = now + delay;
          sent_at = none;
          error = error;
        }

abbrev pub insert_sorted : ℕ → List ℕ → List ℕ
insert_sorted t [] = t ∷ []
insert_sorted t (u ∷ ts) = if leb t u then t ∷ u ∷ ts else u ∷ insert_sorted t ts

-- `.sort((a, b) => a - b)`
abbrev pub sort : List ℕ → List ℕ
sort [] = []
sort (t ∷ ts) = insert_sorted t (sort ts)

-- `t` lies in the minute before `now`: `t > now - 60_000` without a negative number.
abbrev pub in_minute : ℕ → ℕ → Bool
in_minute now t = ltb now (t + 60000)

unfoldable pub rate_limited_until : List ℕ → ℕ → ℕ → Option ℕ
rate_limited_until recent_sent_ats limit_per_minute now =
    let in_window = sort (filter (in_minute now) recent_sent_ats) in
    let limit = max 1 limit_per_minute in
    if ltb (length in_window) limit
    then none
    else some (get_or (get_elem? in_window (length in_window - limit)) 0 + 60000)

abbrev pub is_pending : Status → Bool
is_pending pending = true
is_pending s = false

abbrev pub is_sent : Status → Bool
is_sent sent = true
is_sent s = false

abbrev pub reset_row : Delivery → Delivery
reset_row row = elim row.status [
  | sending ↦ record row { status = pending }
  | pending ↦ row
  | sent ↦ row
  | failed ↦ row
]

-- `updateMany`: what an aborted tick left in the middle is pending again.
unfoldable pub reset_sending : List (String × Delivery) → List (String × Delivery)
reset_sending [] = []
reset_sending ((id, row) ∷ rows) = (id, reset_row row) ∷ reset_sending rows

abbrev pub is_due : ℕ → String × Delivery → Bool
is_due now row = is_pending row.1.status && leb row.1.next_attempt_at now

unfoldable pub due : ℕ → ℕ → List (String × Delivery) → List (String × Delivery)
due now limit rows = take limit (filter (is_due now) rows)

-- A sent row counts for its connector's limit, unless it was a test.
abbrev pub counted : String → Delivery → Option ℕ
counted connector_id row =
    if str_eq row.connector_id connector_id && is_sent row.status && not row.test
    then row.sent_at
    else none

abbrev pub cons_some : Option ℕ → List ℕ → List ℕ
cons_some none ts = ts
cons_some (some t) ts = t ∷ ts

abbrev pub sent_times : String → List (String × Delivery) → List ℕ
sent_times connector_id [] = []
sent_times connector_id ((id, row) ∷ rows) =
    cons_some (counted connector_id row) (sent_times connector_id rows)

-- `sentSince(connectorId, now - 60_000)`
unfoldable pub sent_since : String → ℕ → List (String × Delivery) → List ℕ
sent_since connector_id now rows = filter (in_minute now) (sent_times connector_id rows)

module _ (connector : String → Option Connector) (valid_event : String → Bool)
    (deliver : Delivery → DeliveryResult) where
  -- The row after its turn in a tick; the rows tell what was sent in the last minute.
  unfoldable pub attempt : ℕ → List (String × Delivery) → Delivery → Delivery → Delivery
  attempt now rows due_row row = elim (connector due_row.connector_id) [
    | none ↦ record row { status = failed; sent_at = some now; error = "connector removed" }
    | some c ↦
        if not c.enabled
        then record row { status = failed; sent_at = some now; error = "connector disabled" }
        else elim (rate_limited_until (sent_since due_row.connector_id now rows)
            c.rate_limit_per_minute now) [
              | some until ↦ record row { next_attempt_at = until }
              | none ↦
                  if not (valid_event due_row.event)
                  then record row { status = failed; sent_at = some now; error = "invalid event" }
                  else plan_after_attempt due_row.attempts (deliver due_row) now row
            ]
  ]

  abbrev pub run_rows :
      ℕ → List (String × Delivery) → List (String × Delivery) → List (String × Delivery)
  run_rows now [] rows = rows
  run_rows now ((id, due_row) ∷ due_rows) rows =
      run_rows now due_rows (modify id (attempt now rows due_row) rows)

  unfoldable pub run_delivery_tick : ℕ → List (String × Delivery) → List (String × Delivery)
  run_delivery_tick now rows =
      run_rows now (due now batch_size (reset_sending rows)) (reset_sending rows)
