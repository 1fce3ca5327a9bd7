-- ===== src/Dialogue/Total.antt =====
-- The unread counts of all conversations add up to the number of unread messages.
use xous_app_signal.Prelude.{
  ℕ, ◌+◌, ◌≤◌, ◌≡◌, ◌∙◌, refl, Option, none, some, List, [], ◌∷◌, arith, Text, nat_eq,
}
use xous_app_signal.Collections.HashMap.{
  HashMap, Iteration, NodupKeys, lookup, insert, retain, remove, lookup-remove, retain-NodupKeys,
}
use xous_app_signal.Dialogue.{
  Uuid, ThreadMessage, DialogueSummary, fresh, absorb, add_message, add_all, into_values,
  rebuild_summaries, u32_max,
}
use xous_app_signal.Dialogue.Spec.{unread}
use xous_app_signal.Dialogue.ByUuid.{add_all-NodupKeys}
use xous_app_signal.Dialogue.Sorting.{sum_unread, sum_unread-sort_by_recent}

abbrev Summaries : Type 0
Summaries = HashMap Uuid DialogueSummary

abbrev total : Summaries → ℕ
total m = sum_unread (into_values m)

abbrev count : Option DialogueSummary → ℕ
count none = 0
count (some d) = d.unread_count

total-insert :
    (u : Uuid) (d : DialogueSummary) (m : Summaries)
    → total (insert u d m) + count (lookup u m) ≡ total m + d.unread_count
unfolding sum_unread lookup insert
total-insert u d [] = omega arith
total-insert u d ((k, x) ∷ m) = ground (arith, total-insert u d m)

count-le-total : (u : Uuid) (m : Summaries) → count (lookup u m) ≤ total m
unfolding sum_unread lookup
count-le-total u [] = omega arith
count-le-total u ((k, x) ∷ m) = ground (arith, count-le-total u m)

remove-fresh : (u : Uuid) (m : Summaries) → lookup u m ≡ none → remove u m ≡ m
unfolding lookup remove retain
remove-fresh u [] h = refl
remove-fresh u ((k, x) ∷ m) h = ground (arith, remove-fresh u m)

total-remove :
    (u : Uuid) (m : Summaries) → NodupKeys m → total (remove u m) + count (lookup u m) ≡ total m
unfolding sum_unread lookup remove retain
total-remove u [] n = refl
total-remove u ((k, x) ∷ m) n = ground (arith, total-remove u m n.1, remove-fresh k m n.0)

-- Two maps that read alike have the same total.
total_agree :
    (m m' : Summaries)
    → NodupKeys m
    → NodupKeys m'
    → ((u : Uuid) → lookup u m ≡ lookup u m')
    → total m ≡ total m'
unfolding sum_unread lookup
total_agree [] [] n n' h = refl
total_agree [] ((k, x) ∷ m') n n' h = ground (arith, h k)
total_agree ((k, x) ∷ m) m' n n' h =
    let rest =
      total_agree m (remove k m') n.1 (unfold remove in retain-NodupKeys _ m' n')
        (λ u. ground (arith, h u, lookup-remove k u m', n.0)) in
    ground (arith, rest, total-remove k m' n', h k)

module _ (simple : Uuid → Text) where
  total-add_message :
      (m : ThreadMessage) (by_uuid : Summaries)
      → total by_uuid + unread (m ∷ []) ≤ u32_max
      → total (add_message simple by_uuid m) ≡ total by_uuid + unread (m ∷ [])
  unfolding add_message unread
  total-add_message m by_uuid h =
      let entry : DialogueSummary =
        absorb simple (elim (lookup m.uuid by_uuid) [ some e ↦ e | none ↦ fresh simple m.uuid ])
          m in
      ground (arith, total-insert m.uuid entry by_uuid, count-le-total m.uuid by_uuid)

  total-add_all :
      (ms : List ThreadMessage) (by_uuid : Summaries)
      → total by_uuid + unread ms ≤ u32_max
      → total (add_all simple by_uuid ms) ≡ total by_uuid + unread ms
  unfolding add_all unread
  total-add_all [] by_uuid h = omega arith
  total-add_all (m ∷ ms) by_uuid h =
      ground (arith, total-add_message m by_uuid, total-add_all ms (add_message simple by_uuid m))

  -- With fewer than 2^32 unread messages no count saturates, and the counts of the rows add up
  -- to the number of unread messages.
  pub sum_unread-rebuild_summaries :
      (order : Iteration Uuid DialogueSummary) (messages : List ThreadMessage)
      → unread messages ≤ u32_max
      → sum_unread (rebuild_summaries simple order messages) ≡ unread messages
  unfolding rebuild_summaries sum_unread
  sum_unread-rebuild_summaries order messages h =
      let by_uuid = add_all simple [] messages in
      let nodup = add_all-NodupKeys simple messages [] tt in
      sum_unread-sort_by_recent (into_values (order.entries by_uuid))
      ∙ total_agree (order.entries by_uuid) by_uuid (order.entries_NodupKeys by_uuid nodup) nodup
          (order.entries_lookup by_uuid)
      ∙ total-add_all messages [] (omega arith)
      ∙ omega arith
