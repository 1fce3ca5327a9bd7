-- ===== src/Worker.antt =====
-- The sends of the worker in crates/xous-signal-worker/src/lib.rs: `handle_send` with its retries,
-- and the table of sends that wait for a delivery receipt. libsignal, presage, the clock and the
-- store are parameters: what they answer at each attempt is a `Network`. Logging is left out.
pub mod Accounting
pub mod Waiting
mod Examples
use xous_app_signal.Prelude.{
  ℕ, zero, suc, ◌+◌, ◌^◌, Bool, true, false, ◌&&◌, ◌||◌, Option, none, some, Text, codes, List, [],
  ◌∷◌, ◌++◌, leb, ltb, min, nat_beq, nat_eq, text_beq, if◌then◌else◌, Result, ok, err,
}
use xous_app_signal.Collections.HashMap.{HashMap, Iteration, lookup, insert, remove}
use xous_app_signal.Dialogue.{Uuid}

-- The events that end a send.
pub data SendEvent : Type 0 where
  send_complete : ℕ → SendEvent
  send_error : Text → ℕ → SendEvent

-- `InnerSend`
pub record InnerSend : Type 0 where
  pub recipient : Text
  pub body : Text
  pub timestamp : ℕ

-- `manager.send_message` under `catch_unwind`.
pub data Outcome : Type 0 where
  sent : Outcome
  failed : Text → Outcome
  panicked : Text → Outcome

pub record Contact : Type 0 where
  pub uuid : Uuid
  -- The phone number, in the form of E.164.
  pub phone_number : Option Text

pub record Network : Type 0 where
  -- `manager.store().contacts()`, and each item that its iterator yields.
  pub contacts : Result (List (Result Contact (Unit {0}))) (Unit {0})
  -- By the number of the attempt: `begin_send_batch`, the outcome, whether the flush and the commit
  -- succeed, and the clock.
  pub begin_send_batch : ℕ → Result (Unit {0}) Text
  pub outcome : ℕ → Outcome
  pub flushes : ℕ → Bool
  pub commits : ℕ → Bool
  pub now : ℕ → ℕ

-- The pending table: a timestamp and its deadline.
abbrev pub Pending : Type 0
Pending = HashMap ℕ ℕ

-- What a send leaves: its events, the pending table, the pauses between attempts, and whether the
-- session of the message was written before it was reported.
pub record Report : Type 0 where
  pub events : List SendEvent
  pub pending : Pending
  pub pauses : List ℕ
  pub durable : Bool

abbrev pub send_max_attempts : ℕ
send_max_attempts = 6

-- Seconds: `1 << min(next_attempt, 5)`.
unfoldable pub backoff_for : ℕ → ℕ
backoff_for next_attempt = 2 ^ min next_attempt 5

-- `str::starts_with` and `str::contains`
unfoldable pub starts_with : Text → Text → Bool
starts_with s [] = true
starts_with [] (c ∷ p) = false
starts_with (d ∷ s) (c ∷ p) = nat_beq d c && starts_with s p

unfoldable pub contains_text : Text → Text → Bool
unfolding starts_with
contains_text [] p = starts_with [] p
contains_text (c ∷ s) p = starts_with (c ∷ s) p || contains_text s p

-- The loop over the contacts, up to the first with the number.
unfoldable pub find_contact : Text → List (Result Contact (Unit {0})) → Option Uuid
find_contact target [] = none
find_contact target (err _ ∷ rest) = find_contact target rest
find_contact target (ok c ∷ rest) = elim c.phone_number [
  | none ↦ find_contact target rest
  | some pn ↦ if text_beq pn target then some c.uuid else find_contact target rest
]

module _ (trim : Text → Text) (to_lowercase : Text → Text) (debug : Text → Text)
    (parse_uuid : Text → Option Uuid) (net : Network) (pending_grace : ℕ) where
  unfoldable pub resolve_recipient : Text → Result Uuid Text
  unfolding find_contact starts_with
  resolve_recipient recipient = elim (parse_uuid (trim recipient)) [
    | some uuid ↦ ok uuid
    | none ↦
        if starts_with (trim recipient) (codes "+")
        then (elim net.contacts [
          | err _ ↦ err (codes "couldn't read contacts store")
          | ok contacts ↦ elim (find_contact (trim recipient) contacts) [
            | some uuid ↦ ok uuid
            | none ↦ err (
                codes "phone "
                ++ trim recipient
                ++ codes
                    " not in contacts (receive a message from them first, or use their ACI UUID)")
          ]
        ])
        else err (codes "recipient must be ACI UUID or +e164 phone number; got " ++ debug recipient)
  ]

  unfoldable pub is_retryable : Text → Bool
  unfolding contains_text
  is_retryable msg = contains_text (to_lowercase msg) (codes "websocket closing")

  abbrev pub report : List SendEvent → Pending → Report
  report events pending = record {
    events = events;
    pending = pending;
    pauses = [];
    durable = false;
  }

  abbrev pub after_pause : ℕ → Report → Report
  after_pause seconds r = record r { pauses = seconds ∷ r.pauses }

  -- A failed attempt: another one after a pause, the wait for a receipt, or an error.
  unfoldable pub after_failure : ℕ → ℕ → Pending → Report → Text → Report
  unfolding is_retryable backoff_for
  after_failure attempt timestamp pending retried msg =
      if is_retryable msg && ltb attempt send_max_attempts
      then after_pause (backoff_for attempt) retried
      else if is_retryable msg
      then report [] (insert timestamp (net.now attempt + pending_grace) pending)
      else report (send_error msg timestamp ∷ []) pending

  unfoldable pub after_outcome : ℕ → ℕ → Pending → (Text → Report) → Outcome → Report
  unfolding after_failure
  after_outcome attempt timestamp pending retry sent =
      record (report (send_complete timestamp ∷ []) pending) {
        durable = net.flushes attempt && net.commits attempt;
      }
  after_outcome attempt timestamp pending retry (failed msg) =
      after_failure attempt timestamp pending (retry msg) msg
  after_outcome attempt timestamp pending retry (panicked msg) =
      report (send_error (codes "panic in send: " ++ msg) timestamp ∷ []) pending

  unfoldable pub after_begin : ℕ → ℕ → Pending → (Text → Report) → Result (Unit {0}) Text → Report
  unfolding after_outcome
  after_begin attempt timestamp pending retry (err e) =
      report (send_error (codes "internal: begin_send_batch: " ++ e) timestamp ∷ []) pending
  after_begin attempt timestamp pending retry (ok _) =
      after_outcome attempt timestamp pending retry (net.outcome attempt)

  abbrev pub last_or : Option Text → Text
  last_or none = codes "send retry loop exhausted"
  last_or (some e) = e

  -- The loop over the attempts: the fuel is the number of attempts left.
  unfoldable pub attempts : ℕ → ℕ → ℕ → Option Text → Pending → Report
  unfolding after_begin
  attempts zero attempt timestamp last_err pending =
      report (send_error (codes "retried 6 times: " ++ last_or last_err) timestamp ∷ []) pending
  attempts (suc left) attempt timestamp last_err pending =
      after_begin attempt timestamp pending
        (λ msg. attempts left (suc attempt) timestamp (some msg) pending)
        (net.begin_send_batch attempt)

  unfoldable pub handle_send : InnerSend → Pending → Report
  unfolding resolve_recipient attempts
  handle_send send pending = elim (resolve_recipient send.recipient) [
    | err reason ↦ report (send_error reason send.timestamp ∷ []) pending
    | ok _ ↦ attempts send_max_attempts 1 send.timestamp none pending
  ]

-- The delivery receipts in `process_received`: each timestamp that is pending is confirmed. `open` is
-- whether the channel of events takes an event; where it does not, the loop ends.
unfoldable pub confirm : Bool → List ℕ → Pending → Pending × List SendEvent
confirm accepts [] pending = (pending, [])
confirm accepts (ts ∷ timestamps) pending = elim (lookup ts pending) [
  | none ↦ confirm accepts timestamps pending
  | some _ ↦
      let (rest, events) = confirm accepts timestamps (remove ts pending) in
      if accepts then (rest, send_complete ts ∷ events) else (remove ts pending, [])
]

unfoldable pub expired : ℕ → List (ℕ × ℕ) → List ℕ
expired now [] = []
expired now ((ts, deadline) ∷ entries) =
    let rest = expired now entries in if leb deadline now then ts ∷ rest else rest

abbrev pub sweep_reason : Text
sweep_reason =
    codes
      "WebSocket closed during send and no delivery receipt arrived within the grace window — recipient probably did not receive this message"

unfoldable pub drop_expired : List ℕ → Pending → Pending × List SendEvent
drop_expired [] pending = (pending, [])
drop_expired (ts ∷ rest) pending =
    let (pending', events) = drop_expired rest (remove ts pending) in
    (pending', send_error sweep_reason ts ∷ events)

unfoldable pub sweep_expired_pending_sends : Iteration ℕ ℕ → ℕ → Pending → Pending × List SendEvent
unfolding expired drop_expired
sweep_expired_pending_sends order now [] = ([], [])
sweep_expired_pending_sends order now (entry ∷ entries) =
    drop_expired (expired now (order.entries (entry ∷ entries))) (entry ∷ entries)
