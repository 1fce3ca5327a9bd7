-- ===== src/MessageStore.antt =====
-- `MessageStore` of crates/xous-app-signal/src/store.rs: the bounded message buffer and the
-- summaries derived from it. A method that takes `&mut self` returns the new store; `none` is
-- the panic of `Vec::remove(0)` on an empty buffer, which only a capacity of 0 can reach.
pub mod Funnel
pub mod Eviction
pub mod Capacity
pub mod Reading
pub mod Status
mod Examples
use xous_app_signal.Prelude.{
  ℕ, ◌+◌, ◌^◌, ◌%◌, Bool, true, false, not, ◌&&◌, ◌||◌, Option, none, some, List, [], ◌∷◌, ◌++◌,
  Text, codes, leb, nat_beq, nat_eq, if◌then◌else◌, length,
}
use xous_app_signal.Collections.HashMap.{Iteration}
use xous_app_signal.Labels.{looks_like_raw_uuid}
use xous_app_signal.Dialogue.{
  Uuid, SendStatus, pending, sent, delivered, failed, ThreadMessage, DialogueSummary,
  rebuild_summaries,
}
use xous_app_signal.Dialogue.Spec.{own}
use xous_app_signal.Dialogue.Sorting.{sum_unread}

pub record MessageStore : Type 0 where
  pub messages : List ThreadMessage
  pub dialogues : List DialogueSummary
  pub capacity : ℕ

unfoldable pub new : ℕ → MessageStore
new capacity = record { messages = []; dialogues = []; capacity = capacity }

unfoldable pub thread_messages : MessageStore → Uuid → List ThreadMessage
unfolding own
thread_messages s uuid = own uuid s.messages

-- `sum()` of `u32`s.
unfoldable pub total_unread : MessageStore → ℕ
unfolding sum_unread
total_unread s = sum_unread s.dialogues % 2 ^ 32

abbrev any_group_row : Uuid → List DialogueSummary → Bool
any_group_row uuid [] = false
any_group_row uuid (d ∷ ds) = (nat_beq d.uuid uuid && d.is_group) || any_group_row uuid ds

unfoldable pub is_group_thread : MessageStore → Uuid → Bool
is_group_thread s uuid = any_group_row uuid s.dialogues

unfoldable pub clear : MessageStore → MessageStore
clear s = record s { messages = []; dialogues = [] }

-- `messages.remove(0)`
abbrev pub remove_first : MessageStore → List ThreadMessage → Option MessageStore
remove_first s [] = none
remove_first s (m ∷ rest) = some (record s { messages = rest })

unfoldable pub evict_if_full : MessageStore → Option MessageStore
evict_if_full s = if leb s.capacity (length s.messages) then remove_first s s.messages else some s

-- The loop of `mark_thread_read`, with its flag `changed`.
unfoldable pub mark_read : Uuid → List ThreadMessage → List ThreadMessage × Bool
mark_read uuid [] = ([], false)
mark_read uuid (m ∷ ms) =
    let (rest, changed) = mark_read uuid ms in
    if nat_beq m.uuid uuid && not m.read
    then (record m { read = true } ∷ rest, true)
    else (m ∷ rest, changed)

-- The loop of `resolve_author_labels`, with its flag `touched`.
unfoldable pub relabel : Uuid → Text → List ThreadMessage → List ThreadMessage × Bool
relabel uuid name [] = ([], false)
relabel uuid name (m ∷ ms) =
    let (rest, touched) = relabel uuid name ms in
    if nat_beq m.uuid uuid && looks_like_raw_uuid m.author_label
    then (record m { author_label = name } ∷ rest, true)
    else (m ∷ rest, touched)

unfoldable pub is_send : ℕ → ThreadMessage → Bool
is_send timestamp m = m.outgoing && nat_beq m.timestamp timestamp

-- `iter_mut().rev().find(..)` and the write through the reference that it returns.
unfoldable pub set_newest : ℕ → SendStatus → List ThreadMessage → Option (List ThreadMessage)
unfolding is_send
set_newest timestamp status [] = none
set_newest timestamp status (m ∷ ms) = elim (set_newest timestamp status ms) [
  | some ms' ↦ some (m ∷ ms')
  | none ↦ if is_send timestamp m then some (record m { status = status } ∷ ms) else none
]

module _ (simple : Uuid → Text) (order : Iteration Uuid DialogueSummary) where
  unfoldable pub rebuild : MessageStore → MessageStore
  rebuild s = record s { dialogues = rebuild_summaries simple order s.messages }

  abbrev push : MessageStore → ThreadMessage → MessageStore
  push s m = rebuild (record s { messages = s.messages ++ m ∷ [] })

  unfoldable pub push_incoming : MessageStore → Uuid → Text → Text → ℕ → Bool → Option MessageStore
  unfolding evict_if_full rebuild
  push_incoming s uuid author_label body timestamp group = elim (evict_if_full s) [
    | none ↦ none
    | some s' ↦ some (
        push s' (record {
          uuid = uuid;
          author_label = author_label;
          body = body;
          timestamp = timestamp;
          outgoing = false;
          status = sent;
          read = false;
          group = group;
        }))
  ]

  unfoldable pub push_outgoing_pending : MessageStore → Uuid → Text → ℕ → Option MessageStore
  unfolding evict_if_full rebuild
  push_outgoing_pending s uuid body timestamp = elim (evict_if_full s) [
    | none ↦ none
    | some s' ↦ some (
        push s' (record {
          uuid = uuid;
          author_label = codes "You";
          body = body;
          timestamp = timestamp;
          outgoing = true;
          status = pending;
          read = true;
          group = false;
        }))
  ]

  unfoldable pub set_outgoing_status : MessageStore → ℕ → SendStatus → MessageStore × Bool
  unfolding set_newest rebuild
  set_outgoing_status s timestamp status = elim (set_newest timestamp status s.messages) [
    | some ms ↦ (rebuild (record s { messages = ms }), true)
    | none ↦ (s, false)
  ]

  unfoldable pub mark_send_delivered : MessageStore → ℕ → MessageStore × Bool
  unfolding set_outgoing_status
  mark_send_delivered s timestamp = set_outgoing_status s timestamp delivered

  unfoldable pub mark_send_failed : MessageStore → ℕ → MessageStore × Bool
  unfolding set_outgoing_status
  mark_send_failed s timestamp = set_outgoing_status s timestamp failed

  unfoldable pub mark_thread_read : MessageStore → Uuid → MessageStore
  unfolding mark_read rebuild
  mark_thread_read s uuid =
      let (ms, changed) = mark_read uuid s.messages in
      let s' : MessageStore = record s { messages = ms } in if changed then rebuild s' else s'

  unfoldable pub resolve_author_labels : MessageStore → Uuid → Text → MessageStore × Bool
  unfolding relabel rebuild
  resolve_author_labels s uuid name =
      let (ms, touched) = relabel uuid name s.messages in
      let s' : MessageStore = record s { messages = ms } in
      (if touched then rebuild s' else s', touched)

  unfoldable pub seed : MessageStore → List ThreadMessage → MessageStore
  unfolding rebuild
  seed s rows = rebuild (record s { messages = s.messages ++ rows })
