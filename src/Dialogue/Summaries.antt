-- ===== src/Dialogue/Summaries.antt =====
-- `rebuild_summaries` against its specification.
use xous_app_signal.Prelude.{
  ◌≡◌, refl, ◌∙◌, sym, min, Option, none, some, Option-cases, inl, inr, List, [], ◌∷◌, arith, Text,
  leb, if◌then◌else◌, nat_eq,
}
use xous_app_signal.Collections.HashMap.{HashMap, Iteration, NodupKeys, lookup}
use xous_app_signal.Labels.{ellipsize, short_uuid_label}
use xous_app_signal.Dialogue.{
  Uuid, ThreadMessage, DialogueSummary, fresh, add_all, rebuild_summaries, u32_max, into_values,
}
use xous_app_signal.Dialogue.Spec.{own, unread, any_group, newest, last_incoming}
use xous_app_signal.Dialogue.ByUuid.{
  summary, lookup-add_all, add_all-NodupKeys, uuid-absorb_all, unread-absorb_all, group-absorb_all,
  latest-absorb_all, name-absorb_all, or_named,
}
use xous_app_signal.Dialogue.Sorting.{
  find, IsDistinct, IsRecentFirst, IsLabelled, find-sort_by_recent, sort_by_recent-IsDistinct,
  sort_by_recent-IsRecentFirst, find-into_values, into_values-IsDistinct,
}

module _ (simple : Uuid → Text) where
  -- The row that the home screen should show for a conversation with these messages.
  unfoldable pub expected : Uuid → List ThreadMessage → Option DialogueSummary
  expected u mine = elim (newest mine) [
    | none ↦ none
    | some n ↦ some (record {
      uuid = u;
      display_name = or_named simple (short_uuid_label simple u) (last_incoming mine);
      last_msg_snippet = ellipsize n.body 32;
      last_msg_ts = n.timestamp;
      last_msg_outgoing = n.outgoing;
      last_msg_status = n.status;
      unread_count = min (unread mine) u32_max;
      is_group = any_group mine;
    })
  ]

  newest-cons :
      (m : ThreadMessage) (ms : List ThreadMessage)
      → (n : ThreadMessage) × (newest (m ∷ ms) ≡ some n)
  unfolding newest
  newest-cons m ms = elim (Option-cases (newest ms)) [
    | inl e ↦ (m, rw (e, newest))
    | inr (n, e) ↦ (if leb m.timestamp n.timestamp then n else m, ground arith)
  ]

  summary-eq-expected :
      (u : Uuid) (mine : List ThreadMessage) → summary simple u none mine ≡ expected u mine
  unfolding summary expected fresh
  summary-eq-expected u [] = unfold newest in refl
  summary-eq-expected u (m ∷ ms) =
      let mine = m ∷ ms in
      let d = fresh simple u in
      let (n, some_newest) = newest-cons m ms in
      ground (
        arith,
        some_newest,
        uuid-absorb_all simple mine d,
        unread-absorb_all simple mine d (omega arith),
        group-absorb_all simple mine d,
        latest-absorb_all simple mine d,
        name-absorb_all simple mine d,
      )

  uuid-expected :
      (u : Uuid) (mine : List ThreadMessage) (d : DialogueSummary)
      → expected u mine ≡ some d
      → d.uuid ≡ u
  unfolding expected
  uuid-expected u mine d h = ground arith

  module _ (order : Iteration Uuid DialogueSummary) (messages : List ThreadMessage) where
    by_uuid : HashMap Uuid DialogueSummary
    by_uuid = add_all simple [] messages

    lookup-by_uuid : (u : Uuid) → lookup u (order.entries by_uuid) ≡ expected u (own u messages)
    unfolding by_uuid lookup
    lookup-by_uuid u =
        order.entries_lookup by_uuid u
        ∙ lookup-add_all simple messages [] u
        ∙ summary-eq-expected u (own u messages)

    entries-IsLabelled : IsLabelled (order.entries by_uuid)
    entries-IsLabelled u d h = uuid-expected u (own u messages) d (sym (lookup-by_uuid u) ∙ h)

    entries-NodupKeys : NodupKeys (order.entries by_uuid)
    unfolding by_uuid
    entries-NodupKeys = order.entries_NodupKeys by_uuid (add_all-NodupKeys simple messages [] tt)

    -- For any list of messages and any order of the map: each conversation has exactly the row
    -- that its own messages determine, none where it has no message, no conversation has two
    -- rows, and the rows are sorted with the latest timestamp first.
    pub rebuild_summaries_lem :
        ((u : Uuid)
          → find u (rebuild_summaries simple order messages) ≡ expected u (own u messages))
        × IsDistinct (rebuild_summaries simple order messages)
        × IsRecentFirst (rebuild_summaries simple order messages)
    unfolding rebuild_summaries by_uuid
    rebuild_summaries_lem =
        let entries = order.entries by_uuid in
        let distinct = into_values-IsDistinct entries entries-NodupKeys entries-IsLabelled in
        (
          λ u.
              find-sort_by_recent u (into_values entries) distinct
              ∙ find-into_values u entries entries-NodupKeys entries-IsLabelled
              ∙ lookup-by_uuid u,
          sort_by_recent-IsDistinct (into_values entries) distinct,
          sort_by_recent-IsRecentFirst (into_values entries),
        )
