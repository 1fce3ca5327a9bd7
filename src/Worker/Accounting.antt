-- ===== src/Worker/Accounting.antt =====
-- What becomes of one send: `handle_send` of crates/xous-signal-worker/src/lib.rs.
use xous_app_signal.Prelude.{
  ℕ, zero, suc, ◌+◌, ◌≤◌, ◌≡◌, ◌⊎◌, inl, inr, refl, Bool, false, ◌&&◌, Bool-cases, Option, none,
  some, Text, List, [], ◌∷◌, ltb, nat_eq, if◌then◌else◌, Result-cases, arith,
}
use xous_app_signal.Collections.HashMap.{insert}
use xous_app_signal.Dialogue.{Uuid}
use xous_app_signal.Worker.{
  SendEvent, send_complete, send_error, InnerSend, Outcome, sent, failed, panicked, Network,
  Pending, Report, send_max_attempts, backoff_for, is_retryable, after_pause, resolve_recipient,
  after_failure, after_outcome, after_begin, attempts, handle_send,
}

abbrev pub timestamp_of : SendEvent → ℕ
timestamp_of (send_complete ts) = ts
timestamp_of (send_error _ ts) = ts

unfoldable pub sum : List ℕ → ℕ
sum [] = 0
sum (x ∷ xs) = x + sum xs

-- The pauses that are left from an attempt on.
unfoldable budget : ℕ → ℕ → ℕ
budget zero attempt = 0
budget (suc left) attempt =
    let rest = budget left (suc attempt) in
    if ltb attempt send_max_attempts then backoff_for attempt + rest else 0

-- One event of the timestamp and the table as it was, or no event and the timestamp in the table.
abbrev pub Accounted : ℕ → Pending → Report → Type 0
Accounted ts pending r =
    ((event : SendEvent) × (r.events ≡ event ∷ [])
      × (timestamp_of event ≡ ts)
      × (r.pending ≡ pending))
    ⊎ ((deadline : ℕ) × (r.events ≡ []) × (r.pending ≡ insert ts deadline pending))

module _ (trim : Text → Text) (to_lowercase : Text → Text) (debug : Text → Text)
    (parse_uuid : Text → Option Uuid) (net : Network) (pending_grace : ℕ) where
  abbrev loop : ℕ → ℕ → ℕ → Option Text → Pending → Report
  loop = attempts trim to_lowercase debug parse_uuid net pending_grace

  -- Accounted for, within the pauses that are left.
  abbrev IsFine : ℕ → ℕ → Pending → Report → Type 0
  IsFine most ts pending r = Accounted ts pending r × (sum r.pauses ≤ most)

  ends :
      (most ts : ℕ) (pending : Pending) (event : SendEvent) (durable : Bool)
      → timestamp_of event ≡ ts
      → IsFine most ts pending
          (record { events = event ∷ []; pending = pending; pauses = []; durable = durable })
  unfolding sum
  ends most ts pending event durable e = (inl (event, refl, e, refl), omega arith)

  pauses-IsFine :
      (most ts seconds : ℕ) (pending : Pending) (r : Report)
      → IsFine most ts pending r
      → IsFine
          (seconds + most)
          ts
          pending
          (after_pause trim to_lowercase debug parse_uuid net pending_grace seconds r)
  unfolding sum
  pauses-IsFine most ts seconds pending r (inl h, le) = (inl h, omega (arith, le))
  pauses-IsFine most ts seconds pending r (inr h, le) = (inr h, omega (arith, le))

  after_failure-IsFine :
      (left attempt ts : ℕ) (pending : Pending) (r : Report) (msg : Text)
      → IsFine (budget left (suc attempt)) ts pending r
      → IsFine (budget (suc left) attempt) ts pending (
          after_failure trim to_lowercase debug parse_uuid net pending_grace attempt ts pending r
            msg)
  unfolding after_failure budget sum
  after_failure-IsFine left attempt ts pending r msg h =
      elim (Bool-cases (is_retryable trim to_lowercase debug parse_uuid net pending_grace msg)) [
        | inr permanent ↦
            rw (after_failure, permanent) (ends _ ts pending (send_error msg ts) false refl)
        | inl retryable ↦ elim (Bool-cases (ltb attempt send_max_attempts)) [
          | inl more ↦
              rw (after_failure, retryable, more)
                (pauses-IsFine (budget left (suc attempt)) ts (backoff_for attempt) pending r h)
          | inr exhausted ↦
              rw (after_failure, retryable, exhausted) (inr (_, refl, refl), omega arith)
        ]
      ]

  after_outcome-IsFine :
      (left attempt ts : ℕ) (pending : Pending) (retry : Text → Report) (outcome : Outcome)
      → ((msg : Text) → IsFine (budget left (suc attempt)) ts pending (retry msg))
      → IsFine (budget (suc left) attempt) ts pending (
          after_outcome trim to_lowercase debug parse_uuid net pending_grace attempt ts pending
            retry outcome)
  unfolding after_outcome
  after_outcome-IsFine left attempt ts pending retry sent h =
      ends _ ts pending (send_complete ts) (net.flushes attempt && net.commits attempt) refl
  after_outcome-IsFine left attempt ts pending retry (failed msg) h =
      after_failure-IsFine left attempt ts pending (retry msg) msg (h msg)
  after_outcome-IsFine left attempt ts pending retry (panicked msg) h =
      ends _ ts pending (send_error _ ts) false refl

  attempts-IsFine :
      (left attempt ts : ℕ) (last_err : Option Text) (pending : Pending)
      → IsFine (budget left attempt) ts pending (loop left attempt ts last_err pending)
  unfolding attempts after_begin
  attempts-IsFine zero attempt ts last_err pending = ends _ ts pending (send_error _ ts) false refl
  attempts-IsFine (suc left) attempt ts last_err pending =
      let rest = λ (msg : Text). attempts-IsFine left (suc attempt) ts (some msg) pending in
      elim (Result-cases (net.begin_send_batch attempt)) [
        | inr (e, bad) ↦
            rw (attempts, after_begin, bad) (ends _ ts pending (send_error _ ts) false refl)
        | inl (u, begun) ↦
            rw (attempts, after_begin, begun)
              (after_outcome-IsFine left attempt ts pending _ (net.outcome attempt) rest)
      ]

  -- Every send is accounted for, whatever the network, the store and the contacts answer: it ends with
  -- exactly one event of its timestamp and leaves the table of waiting sends alone, or with no event
  -- and its timestamp in that table; and its pauses between attempts add up to at most 62 seconds.
  pub handle_send-Accounted :
      (send : InnerSend) (pending : Pending)
      → let r = handle_send trim to_lowercase debug parse_uuid net pending_grace send pending in
        Accounted send.timestamp pending r × (sum r.pauses ≤ 62)
  unfolding handle_send budget backoff_for
  handle_send-Accounted send pending =
      elim (Result-cases
        (resolve_recipient trim to_lowercase debug parse_uuid net pending_grace send.recipient)) [
          | inr (e, bad) ↦
              rw (handle_send, bad)
                (ends 62 send.timestamp pending (send_error e send.timestamp) false refl)
          | inl (u, found) ↦
              rw (handle_send, found) (attempts-IsFine 6 1 send.timestamp none pending)
        ]
