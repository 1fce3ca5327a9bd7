-- ===== src/Dialogue/Spec.antt =====
-- What a conversation's summary should say, written per conversation and without the map: from
-- the messages of one uuid alone, most of it read from the end of the list.
use xous_app_signal.Prelude.{
  ℕ, ◌+◌, Bool, false, ◌||◌, Option, none, some, List, [], ◌∷◌, Text, leb, if◌then◌else◌, nat_beq,
}
use xous_app_signal.Labels.{ellipsize, short_uuid_label, looks_like_raw_uuid}
use xous_app_signal.Dialogue.{Uuid, SendStatus, ThreadMessage, DialogueSummary, is_unread}

-- The messages of one conversation, in order.
unfoldable pub own : Uuid → List ThreadMessage → List ThreadMessage
own u [] = []
own u (m ∷ ms) = if nat_beq m.uuid u then m ∷ own u ms else own u ms

unfoldable pub unread : List ThreadMessage → ℕ
unread [] = 0
unread (m ∷ ms) = (if is_unread m then 1 else 0) + unread ms

unfoldable pub any_group : List ThreadMessage → Bool
any_group [] = false
any_group (m ∷ ms) = m.group || any_group ms

-- The message with the greatest timestamp, the later one in the list where two are equal.
unfoldable pub newest : List ThreadMessage → Option ThreadMessage
newest [] = none
newest (m ∷ ms) = elim (newest ms) [
  | none ↦ some m
  | some n ↦ if leb m.timestamp n.timestamp then some n else some m
]

-- The last incoming message, whose label names the other party.
unfoldable pub last_incoming : List ThreadMessage → Option ThreadMessage
last_incoming [] = none
last_incoming (m ∷ ms) = elim (last_incoming ms) [
  | none ↦ if m.outgoing then none else some m
  | some n ↦ some n
]

-- What a message contributes as the latest of its conversation.
abbrev pub Latest : Type 0
Latest = ℕ × Text × Bool × SendStatus

abbrev pub latest_of : ThreadMessage → Latest
latest_of m = (m.timestamp, ellipsize m.body 32, m.outgoing, m.status)

abbrev pub latest : DialogueSummary → Latest
latest d = (d.last_msg_ts, d.last_msg_snippet, d.last_msg_outgoing, d.last_msg_status)

-- The name a label gives: a raw UUID is shortened.
abbrev pub name_of : (Uuid → Text) → ThreadMessage → Text
name_of simple m =
    if looks_like_raw_uuid m.author_label then short_uuid_label simple m.uuid else m.author_label
