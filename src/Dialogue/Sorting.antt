-- ===== src/Dialogue/Sorting.antt =====
-- The last two steps of `rebuild_summaries`: the map's values as a list, and the stable sort by
-- the latest timestamp. Neither loses, adds or doubles a conversation.
use xous_app_signal.Prelude.{
  ℕ, ◌+◌, ◌≤◌, ◌≡◌, refl, ◌∙◌, Option, none, some, List, [], ◌∷◌, arith, if◌then◌else◌, nat_beq,
  nat_eq,
}
use xous_app_signal.Collections.HashMap.{HashMap, NodupKeys, lookup}
use xous_app_signal.Dialogue.{Uuid, DialogueSummary, sort_in, sort_by_recent, into_values}

-- The first row of a conversation, and whether no two rows share one.
unfoldable pub find : Uuid → List DialogueSummary → Option DialogueSummary
find u [] = none
find u (d ∷ ds) = if nat_beq d.uuid u then some d else find u ds

abbrev pub IsDistinct : List DialogueSummary → Type 0
IsDistinct [] = Unit
IsDistinct (d ∷ ds) = (find d.uuid ds ≡ none) × IsDistinct ds

-- Newest first.
abbrev pub IsRecentFirst : List DialogueSummary → Type 0
IsRecentFirst [] = Unit
IsRecentFirst (d ∷ []) = Unit
IsRecentFirst (d ∷ e ∷ ds) = (e.last_msg_ts ≤ d.last_msg_ts) × IsRecentFirst (e ∷ ds)

unfoldable pub sum_unread : List DialogueSummary → ℕ
sum_unread [] = 0
sum_unread (d ∷ ds) = d.unread_count + sum_unread ds

find-sort_in :
    (u : Uuid) (d : DialogueSummary) (ds : List DialogueSummary)
    → find d.uuid ds ≡ none
    → find u (sort_in d ds) ≡ find u (d ∷ ds)
unfolding find sort_in
find-sort_in u d [] h = refl
find-sort_in u d (x ∷ xs) h = ground (arith, find-sort_in u d xs)

pub find-sort_by_recent :
    (u : Uuid) (ds : List DialogueSummary) → IsDistinct ds → find u (sort_by_recent ds) ≡ find u ds
unfolding find sort_by_recent
find-sort_by_recent u [] h = refl
find-sort_by_recent u (d ∷ ds) h = ground (
  arith,
  find-sort_in u d (sort_by_recent ds),
  find-sort_by_recent u ds h.1,
  find-sort_by_recent d.uuid ds h.1,
)

sort_in-IsDistinct :
    (d : DialogueSummary) (ds : List DialogueSummary)
    → find d.uuid ds ≡ none
    → IsDistinct ds
    → IsDistinct (sort_in d ds)
unfolding find sort_in
sort_in-IsDistinct d [] h k = (refl, tt)
sort_in-IsDistinct d (x ∷ xs) h k =
    ground (arith, sort_in-IsDistinct d xs, find-sort_in x.uuid d xs)

pub sort_by_recent-IsDistinct :
    (ds : List DialogueSummary) → IsDistinct ds → IsDistinct (sort_by_recent ds)
unfolding sort_by_recent
sort_by_recent-IsDistinct [] h = tt
sort_by_recent-IsDistinct (d ∷ ds) h =
    sort_in-IsDistinct d (sort_by_recent ds) (find-sort_by_recent d.uuid ds h.1 ∙ h.0)
      (sort_by_recent-IsDistinct ds h.1)

sort_in-IsRecentFirst :
    (d : DialogueSummary) (ds : List DialogueSummary)
    → IsRecentFirst ds
    → IsRecentFirst (sort_in d ds)
unfolding sort_in
sort_in-IsRecentFirst d [] h = tt
sort_in-IsRecentFirst d (x ∷ []) h = ground arith
sort_in-IsRecentFirst d (x ∷ y ∷ ds) h = ground (arith, sort_in-IsRecentFirst d (y ∷ ds))

pub sort_by_recent-IsRecentFirst : (ds : List DialogueSummary) → IsRecentFirst (sort_by_recent ds)
unfolding sort_by_recent
sort_by_recent-IsRecentFirst [] = tt
sort_by_recent-IsRecentFirst (d ∷ ds) =
    sort_in-IsRecentFirst d (sort_by_recent ds) (sort_by_recent-IsRecentFirst ds)

sum_unread-sort_in :
    (d : DialogueSummary) (ds : List DialogueSummary)
    → sum_unread (sort_in d ds) ≡ d.unread_count + sum_unread ds
unfolding sum_unread sort_in
sum_unread-sort_in d [] = refl
sum_unread-sort_in d (x ∷ xs) = ground (arith, sum_unread-sort_in d xs)

pub sum_unread-sort_by_recent :
    (ds : List DialogueSummary) → sum_unread (sort_by_recent ds) ≡ sum_unread ds
unfolding sum_unread sort_by_recent
sum_unread-sort_by_recent [] = refl
sum_unread-sort_by_recent (d ∷ ds) =
    omega (arith, sum_unread-sort_in d (sort_by_recent ds), sum_unread-sort_by_recent ds)

-- Each entry of the map carries its key.
abbrev pub IsLabelled : HashMap Uuid DialogueSummary → Type 0
IsLabelled m = (u : Uuid) (d : DialogueSummary) → lookup u m ≡ some d → d.uuid ≡ u

IsLabelled-tail :
    (k : Uuid) (d : DialogueSummary) (m : HashMap Uuid DialogueSummary)
    → lookup k m ≡ none
    → IsLabelled ((k, d) ∷ m)
    → IsLabelled m
unfolding lookup
IsLabelled-tail k d m fresh h u e found = h u e (ground arith)

IsLabelled-head :
    (k : Uuid) (d : DialogueSummary) (m : HashMap Uuid DialogueSummary)
    → IsLabelled ((k, d) ∷ m)
    → d.uuid ≡ k
unfolding lookup
IsLabelled-head k d m h = h k d (ground arith)

pub find-into_values :
    (u : Uuid) (m : HashMap Uuid DialogueSummary)
    → NodupKeys m
    → IsLabelled m
    → find u (into_values m) ≡ lookup u m
unfolding find lookup
find-into_values u [] n h = refl
find-into_values u ((k, d) ∷ m) n h =
    ground (arith, IsLabelled-head k d m h, find-into_values u m n.1 (IsLabelled-tail k d m n.0 h))

pub into_values-IsDistinct :
    (m : HashMap Uuid DialogueSummary) → NodupKeys m → IsLabelled m → IsDistinct (into_values m)
into_values-IsDistinct [] n h = tt
into_values-IsDistinct ((k, d) ∷ m) n h =
    let labelled = IsLabelled-tail k d m n.0 h in
    (
      rw (IsLabelled-head k d m h) (find-into_values k m n.1 labelled ∙ n.0),
      into_values-IsDistinct m n.1 labelled,
    )
