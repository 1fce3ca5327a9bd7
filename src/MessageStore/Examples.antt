-- ===== src/MessageStore/Examples.antt =====
-- Tests of the message store, after those of the source file, and the theorems at concrete inputs.
use xous_app_signal.Prelude.{
  All, ℕ, ◌+◌, ◌^◌, ◌<◌, ◌≤◌, ◌≡◌, ◌≢◌, ◌⊎◌, refl, true, false, some, List, [], ◌∷◌, ◌++◌, arith,
  Text, codes, length, map, nat_eq,
}
use xous_app_signal.Collections.HashMap
use xous_app_signal.Collections.HashMap.{insertion_order}
use xous_app_signal.Labels.{looks_like_raw_uuid, ellipsize}
use xous_app_signal.Dialogue.{
  sent, Uuid, SendStatus, ThreadMessage, DialogueSummary, rebuild_summaries, is_unread, u32_max,
}
use xous_app_signal.Dialogue.Spec.{own, unread}
use xous_app_signal.Dialogue.Sorting.{find, IsDistinct, IsRecentFirst}
use xous_app_signal.Dialogue.Summaries.{expected, rebuild_summaries_lem}
use xous_app_signal.MessageStore.{
  MessageStore, new, thread_messages, total_unread, push_incoming, push_outgoing_pending,
  set_outgoing_status, mark_send_delivered, mark_thread_read, resolve_author_labels,
}
use xous_app_signal.MessageStore.Funnel.{
  Call, incoming, outgoing, delivered, read_thread, apply, run, run-IsDerived,
}
use xous_app_signal.MessageStore.Capacity.{run_total}
use xous_app_signal.MessageStore.Reading.{
  IsNamed, any_raw, mark_thread_read_exact, resolve_author_labels_settles, total_unread-run,
}
use xous_app_signal.MessageStore.Status.{any_send, IsNewest, set_outgoing_status_lem}

-- A stand-in for the `uuid` crate's hexadecimal form, at the uuids of the tests.
abbrev simple : Uuid → Text
simple u = codes "0123456789abcdef0011223344556677"

abbrev calls : List Call
calls =
    incoming 1 (codes "Alice") (codes "hello") 100 false
    ∷ incoming 2 (codes "Bob") (codes "hi") 300 true
    ∷ outgoing 1 (codes "ping") 200
    ∷ delivered 200
    ∷ incoming 1 (codes "Alice") (codes "again") 250 false
    ∷ read_thread 2
    ∷ []

abbrev alice : Text → ℕ → ThreadMessage
alice body ts = record {
  uuid = 1;
  author_label = codes "Alice";
  body = body;
  timestamp = ts;
  outgoing = false;
  status = SendStatus.sent;
  read = false;
  group = false;
}

abbrev ping : SendStatus → ThreadMessage
ping status = record {
  uuid = 1;
  author_label = codes "You";
  body = codes "ping";
  timestamp = 200;
  outgoing = true;
  status = status;
  read = true;
  group = false;
}

abbrev bob : ThreadMessage
bob = record {
  uuid = 2;
  author_label = codes "Bob";
  body = codes "hi";
  timestamp = 300;
  outgoing = false;
  status = SendStatus.sent;
  read = true;
  group = true;
}

abbrev left : List ThreadMessage
left = bob ∷ ping SendStatus.delivered ∷ alice (codes "again") 250 ∷ []

-- A full store evicts its oldest row, and the read mark of Bob's thread sticks.
abbrev final : MessageStore
final = record {
  messages = left;
  dialogues = rebuild_summaries simple insertion_order left;
  capacity = 3;
}

ran : run simple insertion_order calls (new 3) ≡ some final
unfolding run apply new push_incoming push_outgoing_pending mark_send_delivered mark_thread_read
ran = refl

newest_first : map (λ (d : DialogueSummary). d.last_msg_ts) final.dialogues ≡ 300 ∷ 250 ∷ []
unfolding rebuild_summaries HashMap.insert HashMap.lookup looks_like_raw_uuid ellipsize
newest_first = refl

rebuild_summaries_lem_example :
    ((u : Uuid)
      → find u (rebuild_summaries simple insertion_order left) ≡ expected simple u (own u left))
    × IsDistinct (rebuild_summaries simple insertion_order left)
    × IsRecentFirst (rebuild_summaries simple insertion_order left)
rebuild_summaries_lem_example = rebuild_summaries_lem simple insertion_order left

few_unread : unread left ≤ u32_max
unfolding unread is_unread
few_unread = omega arith

run-IsDerived_example : final.dialogues ≡ rebuild_summaries simple insertion_order final.messages
run-IsDerived_example = run-IsDerived simple insertion_order 3 calls final ran

run_total_example :
    (s : MessageStore) × (run simple insertion_order calls (new 3) ≡ some s)
    × (length s.messages ≤ 3)
run_total_example =
    run_total simple insertion_order 3 calls (omega arith) (tt, (tt, (tt, (tt, (tt, (tt, tt))))))

mark_thread_read_exact_example :
    (unread (thread_messages (mark_thread_read simple insertion_order final 1) 1) ≡ 0)
    × (unread (mark_thread_read simple insertion_order final 1).messages
          + unread (thread_messages final 1)
        ≡ unread final.messages)
    × ((v : Uuid)
        → 1 ≢ v
        → thread_messages (mark_thread_read simple insertion_order final 1) v
          ≡ thread_messages final v)
mark_thread_read_exact_example = mark_thread_read_exact simple insertion_order final 1

name_is_no_uuid : looks_like_raw_uuid (codes "Alice") ≡ false
unfolding looks_like_raw_uuid
name_is_no_uuid = refl

-- Two messages of one thread, the first with a raw UUID for a label, and one of another.
abbrev raw_label : Text
raw_label = codes "01234567-89ab-cdef-0011-223344556677"

abbrev labelled : Uuid → Text → ThreadMessage
labelled u label = record {
  uuid = u;
  author_label = label;
  body = codes "hi";
  timestamp = 100;
  outgoing = false;
  status = sent;
  read = false;
  group = false;
}

abbrev unresolved : MessageStore
unresolved = record {
  messages = labelled 1 raw_label ∷ labelled 2 raw_label ∷ labelled 1 (codes "Bob") ∷ [];
  dialogues = [];
  capacity = 5;
}

resolve_author_labels_settles_example :
    let after = resolve_author_labels simple insertion_order unresolved 1 (codes "Alice") in
    (thread_messages after.0 1 ≡ labelled 1 (codes "Alice") ∷ labelled 1 (codes "Bob") ∷ [])
    × (after.1 ≡ true)
    × All IsNamed (thread_messages after.0 1)
    × (resolve_author_labels simple insertion_order after.0 1 (codes "Alice") ≡ (after.0, false))
    × (unread after.0.messages ≡ unread unresolved.messages)
    × ((v : Uuid) → 1 ≢ v → thread_messages after.0 v ≡ thread_messages unresolved v)
unfolding thread_messages own any_raw looks_like_raw_uuid
resolve_author_labels_settles_example =
    resolve_author_labels_settles simple insertion_order unresolved 1 (codes "Alice")
      name_is_no_uuid

one_unread : unread final.messages < 2 ^ 32
unfolding unread is_unread
one_unread = omega arith

total_unread-run_example : total_unread final ≡ unread final.messages
total_unread-run_example = total_unread-run simple insertion_order 3 calls final ran one_unread

set_outgoing_status_lem_example :
    ((any_send 200 final.messages ≡ false)
      × (set_outgoing_status simple insertion_order final 200 SendStatus.failed ≡ (final, false)))
    ⊎ ((before : List ThreadMessage) × (m : ThreadMessage) × (behind : List ThreadMessage)
        × IsNewest 200 final.messages before m behind
        × ((set_outgoing_status simple insertion_order final 200 SendStatus.failed).1 ≡ true)
        × ((set_outgoing_status simple insertion_order final 200 SendStatus.failed).0.messages
            ≡ before ++ record m { status = SendStatus.failed } ∷ behind))
set_outgoing_status_lem_example =
    set_outgoing_status_lem simple insertion_order final 200 SendStatus.failed
