-- ===== src/Worker/Examples.antt =====
-- Runs of a send and of the table of waiting sends, and the theorems at concrete inputs.
use xous_app_signal.Prelude.{
  ℕ, ◌≤◌, ◌≡◌, refl, true, Option, none, some, Text, codes, [], ◌∷◌, ◌++◌, nat_eq, ok, arith, leb,
  if◌then◌else◌,
}
use xous_app_signal.Collections.HashMap.{insertion_order, lookup}
use xous_app_signal.Dialogue.{Uuid}
use xous_app_signal.Worker.{
  send_complete, InnerSend, Outcome, sent, failed, Network, Pending, handle_send, resolve_recipient,
  attempts, after_begin, after_outcome, after_failure, is_retryable, contains_text, starts_with,
  backoff_for, sweep_expired_pending_sends,
}
use xous_app_signal.Worker.Accounting.{Accounted, sum, handle_send-Accounted}
use xous_app_signal.Worker.Waiting.{receipts, sweep, count, run_ticks, wait-resolved}

abbrev same : Text → Text
same s = s

abbrev parse_uuid : Text → Option Uuid
parse_uuid s = some 4

-- The socket closes during the first two attempts.
abbrev closes_twice : ℕ → Outcome
closes_twice attempt = if leb attempt 2 then failed (codes "websocket closing") else sent

abbrev net : Network
net = record {
  contacts = ok [];
  begin_send_batch = λ attempt. ok tt;
  outcome = closes_twice;
  flushes = λ attempt. true;
  commits = λ attempt. true;
  now = λ attempt. 100;
}

abbrev message : InnerSend
message = record { recipient = codes "alice"; body = codes "hi"; timestamp = 9 }

third_time :
    handle_send same same same parse_uuid net 30 message []
    ≡ record { events = send_complete 9 ∷ []; pending = []; pauses = 2 ∷ 4 ∷ []; durable = true }
unfolding handle_send resolve_recipient attempts after_begin after_outcome after_failure
    is_retryable contains_text starts_with backoff_for
third_time = refl

handle_send-Accounted_example :
    Accounted 9 [] (handle_send same same same parse_uuid net 30 message [])
    × (sum (handle_send same same same parse_uuid net 30 message []).pauses ≤ 62)
handle_send-Accounted_example = handle_send-Accounted same same same parse_uuid net 30 message []

abbrev waiting : Pending
waiting = (9, 130) ∷ []

wait-resolved_example :
    (count 9 (
        (run_ticks insertion_order (receipts (7 ∷ []) ∷ sweep 120 ∷ []) waiting).1
        ++ (sweep_expired_pending_sends insertion_order 130
            (run_ticks insertion_order (receipts (7 ∷ []) ∷ sweep 120 ∷ []) waiting).0).1)
      ≡ 1)
    × (lookup 9
          (sweep_expired_pending_sends insertion_order 130
            (run_ticks insertion_order (receipts (7 ∷ []) ∷ sweep 120 ∷ []) waiting).0).0
        ≡ none)
unfolding lookup
wait-resolved_example =
    wait-resolved insertion_order (receipts (7 ∷ []) ∷ sweep 120 ∷ []) 130 9 130 waiting (refl, tt)
      refl (omega arith)
