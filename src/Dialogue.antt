-- ===== src/Dialogue.antt =====
-- The conversation-list data model of crates/xous-app-signal/src/dialogue.rs: a flat list of
-- messages, and the summaries per conversation that `rebuild_summaries` derives from it. A
-- `Uuid` is its 128-bit value; its hexadecimal form (`simple`) and the order in which a `HashMap`
-- is walked are parameters.
pub mod Spec
pub mod ByUuid
pub mod Sorting
pub mod Summaries
pub mod Total
use xous_app_signal.Prelude.{
  ℕ, ◌+◌, ◌^◌, ◌-◌, min, Bool, true, false, not, ◌&&◌, ◌||◌, Option, none, some, List, [], ◌∷◌, map,
  Text, leb, ltb, if◌then◌else◌, nat_eq, HasEq,
}
use xous_app_signal.Collections.HashMap
use xous_app_signal.Collections.HashMap.{HashMap, Iteration}
use xous_app_signal.Labels.{ellipsize, short_uuid_label, looks_like_raw_uuid}

abbrev pub Uuid : Type 0
Uuid = ℕ

pub data SendStatus : Type 0 where
  pending sent delivered failed : SendStatus

abbrev pub is_sent : SendStatus → Bool
is_sent sent = true
is_sent _ = false

pub record ThreadMessage : Type 0 where
  pub uuid : Uuid
  pub author_label : Text
  pub body : Text
  pub timestamp : ℕ
  pub outgoing : Bool
  pub status : SendStatus
  pub read : Bool
  pub group : Bool

pub record DialogueSummary : Type 0 where
  pub uuid : Uuid
  pub display_name : Text
  pub last_msg_snippet : Text
  pub last_msg_ts : ℕ
  pub last_msg_outgoing : Bool
  pub last_msg_status : SendStatus
  pub unread_count : ℕ
  pub is_group : Bool

abbrev pub u32_max : ℕ
u32_max = 2 ^ 32 - 1

-- `u32::saturating_add(1)`
abbrev pub saturating_succ : ℕ → ℕ
saturating_succ n = min (n + 1) u32_max

unfoldable pub is_unread : ThreadMessage → Bool
is_unread m = not m.outgoing && is_sent m.status && not m.read

-- `sort_by(|a, b| b.last_msg_ts.cmp(&a.last_msg_ts))`, which is stable.
unfoldable pub sort_in : DialogueSummary → List DialogueSummary → List DialogueSummary
sort_in d [] = d ∷ []
sort_in d (x ∷ xs) =
    let rest = sort_in d xs in if ltb d.last_msg_ts x.last_msg_ts then x ∷ rest else d ∷ x ∷ xs

unfoldable pub sort_by_recent : List DialogueSummary → List DialogueSummary
unfolding sort_in
sort_by_recent [] = []
sort_by_recent (d ∷ ds) = sort_in d (sort_by_recent ds)

abbrev pub into_values : List (Uuid × DialogueSummary) → List DialogueSummary
into_values = map (λ e. e.1)

module _ (simple : Uuid → Text) where
  -- The value of `or_insert_with`.
  unfoldable pub fresh : Uuid → DialogueSummary
  fresh uuid = record {
    uuid = uuid;
    display_name = short_uuid_label simple uuid;
    last_msg_snippet = [];
    last_msg_ts = 0;
    last_msg_outgoing = false;
    last_msg_status = sent;
    unread_count = 0;
    is_group = false;
  }

  -- One round of the loop on the entry of its conversation.
  unfoldable pub absorb : DialogueSummary → ThreadMessage → DialogueSummary
  unfolding is_unread
  absorb entry m =
      let newer = leb entry.last_msg_ts m.timestamp in
      record entry {
        is_group = entry.is_group || m.group;
        display_name =
            (if m.outgoing
              then entry.display_name
              else if looks_like_raw_uuid m.author_label
              then short_uuid_label simple m.uuid
              else m.author_label);
        last_msg_ts = (if newer then m.timestamp else entry.last_msg_ts);
        last_msg_snippet = (if newer then ellipsize m.body 32 else entry.last_msg_snippet);
        last_msg_outgoing = (if newer then m.outgoing else entry.last_msg_outgoing);
        last_msg_status = (if newer then m.status else entry.last_msg_status);
        unread_count =
            (if is_unread m then saturating_succ entry.unread_count else entry.unread_count);
      }

  unfoldable pub add_message :
      HashMap Uuid DialogueSummary → ThreadMessage → HashMap Uuid DialogueSummary
  unfolding fresh absorb
  add_message by_uuid m =
      HashMap.insert m.uuid
        (absorb (elim (HashMap.lookup m.uuid by_uuid) [ some e ↦ e | none ↦ fresh m.uuid ]) m)
        by_uuid

  unfoldable pub add_all :
      HashMap Uuid DialogueSummary → List ThreadMessage → HashMap Uuid DialogueSummary
  unfolding add_message
  add_all by_uuid [] = by_uuid
  add_all by_uuid (m ∷ messages) = add_all (add_message by_uuid m) messages

  unfoldable pub rebuild_summaries :
      Iteration Uuid DialogueSummary → List ThreadMessage → List DialogueSummary
  unfolding add_all sort_by_recent
  rebuild_summaries order messages =
      sort_by_recent (into_values (order.entries (add_all [] messages)))
