-- ===== src/Dialogue/ByUuid.antt =====
-- The loop of `rebuild_summaries` over the map: each conversation's entry depends on that
-- conversation's messages alone, and each of its fields is what the specification says.
use xous_app_signal.Prelude.{
  ◌+◌, ◌≤◌, ◌≡◌, refl, min, ◌||◌, Option, none, some, Option-cases, inl, inr, List, [], ◌∷◌, arith,
  Text, leb, if◌then◌else◌, nat_eq,
}
use xous_app_signal.Collections.HashMap.{
  HashMap, NodupKeys, lookup, lookup-insert, insert-NodupKeys,
}
use xous_app_signal.Dialogue.{
  Uuid, ThreadMessage, DialogueSummary, fresh, absorb, add_message, add_all, u32_max,
}
use xous_app_signal.Dialogue.Spec.{
  own, unread, any_group, newest, last_incoming, latest, latest_of, name_of, Latest,
}

-- The latest of what the entry holds and a list of messages.
abbrev pub or_newer : Latest → Option ThreadMessage → Latest
or_newer l none = l
or_newer l (some n) = if leb l.0 n.timestamp then latest_of n else l

abbrev pub or_named : (Uuid → Text) → Text → Option ThreadMessage → Text
or_named simple name none = name
or_named simple name (some n) = name_of simple n

module _ (simple : Uuid → Text) where
  unfoldable pub absorb_all : DialogueSummary → List ThreadMessage → DialogueSummary
  absorb_all d [] = d
  absorb_all d (m ∷ ms) = absorb_all (absorb simple d m) ms

  -- The summary of one conversation's messages; none without a message.
  unfoldable pub summary :
      Uuid → Option DialogueSummary → List ThreadMessage → Option DialogueSummary
  unfolding absorb_all
  summary u none [] = none
  summary u none (m ∷ ms) = some (absorb_all (fresh simple u) (m ∷ ms))
  summary u (some d) ms = some (absorb_all d ms)

  pub lookup-add_all :
      (ms : List ThreadMessage) (by_uuid : HashMap Uuid DialogueSummary) (u : Uuid)
      → lookup u (add_all simple by_uuid ms) ≡ summary u (lookup u by_uuid) (own u ms)
  unfolding add_all add_message own summary
  lookup-add_all [] by_uuid u = elim (Option-cases (lookup u by_uuid)) [
    | inl e ↦ rw (e, summary)
    | inr (d, e) ↦ rw (e, summary, absorb_all)
  ]
  lookup-add_all (m ∷ ms) by_uuid u =
      let entry : DialogueSummary =
        absorb simple (elim (lookup m.uuid by_uuid) [ some e ↦ e | none ↦ fresh simple m.uuid ])
          m in
      ground (
        arith,
        lookup-add_all ms (add_message simple by_uuid m) u,
        lookup-insert m.uuid u entry by_uuid,
      )

  pub add_all-NodupKeys :
      (ms : List ThreadMessage) (by_uuid : HashMap Uuid DialogueSummary)
      → NodupKeys by_uuid
      → NodupKeys (add_all simple by_uuid ms)
  unfolding add_all add_message
  add_all-NodupKeys [] by_uuid h = h
  add_all-NodupKeys (m ∷ ms) by_uuid h =
      add_all-NodupKeys ms _ (insert-NodupKeys m.uuid _ by_uuid h)

  pub uuid-absorb_all :
      (ms : List ThreadMessage) (d : DialogueSummary) → (absorb_all d ms).uuid ≡ d.uuid
  unfolding absorb_all absorb
  uuid-absorb_all [] d = refl
  uuid-absorb_all (m ∷ ms) d = uuid-absorb_all ms (absorb simple d m)

  pub unread-absorb_all :
      (ms : List ThreadMessage) (d : DialogueSummary)
      → d.unread_count ≤ u32_max
      → (absorb_all d ms).unread_count ≡ min (d.unread_count + unread ms) u32_max
  unfolding absorb_all absorb unread
  unread-absorb_all [] d h = omega arith
  unread-absorb_all (m ∷ ms) d h = ground (arith, unread-absorb_all ms (absorb simple d m))

  pub group-absorb_all :
      (ms : List ThreadMessage) (d : DialogueSummary)
      → (absorb_all d ms).is_group ≡ (d.is_group || any_group ms)
  unfolding absorb_all absorb any_group
  group-absorb_all [] d = ground arith
  group-absorb_all (m ∷ ms) d = ground (arith, group-absorb_all ms (absorb simple d m))

  pub latest-absorb_all :
      (ms : List ThreadMessage) (d : DialogueSummary)
      → latest (absorb_all d ms) ≡ or_newer (latest d) (newest ms)
  unfolding absorb_all absorb newest
  latest-absorb_all [] d = refl
  latest-absorb_all (m ∷ ms) d = ground (arith, latest-absorb_all ms (absorb simple d m))

  pub name-absorb_all :
      (ms : List ThreadMessage) (d : DialogueSummary)
      → (absorb_all d ms).display_name ≡ or_named simple d.display_name (last_incoming ms)
  unfolding absorb_all absorb last_incoming
  name-absorb_all [] d = refl
  name-absorb_all (m ∷ ms) d = ground (arith, name-absorb_all ms (absorb simple d m))
