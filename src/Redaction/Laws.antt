-- ===== src/Redaction/Laws.antt =====
-- What a log line can show: crates/presage-store-pddb/src/redact.rs and
-- crates/xous-app-signal/src/log_filter.rs.
use xous_app_signal.Prelude.{
  text_beq, ◌-◌, ◌<◌, ◌≡◌, refl, sym, ap, ◌∙◌, Bool, true, false, some, List, Text, codes, [], ◌∷◌,
  ◌++◌, length, drop, arith, ◌||◌,
}
use xous_app_signal.Redaction.{starts_a_path, redact_id, log_id, strip_prefix, muffled_by}
use xous_app_signal.Http.{starts_with}

redact_id-long : (s : Text) → 4 < length s → redact_id s ≡ codes ".." ++ drop (length s - 4) s
unfolding redact_id
redact_id-long s h = ground (arith, h)

-- Two identifiers of more than four characters that end in the same four look the same in the log
-- of a build without `verbose-pii`.
pub log_id-same :
    (s t : Text)
    → 4 < length s
    → 4 < length t
    → drop (length s - 4) s ≡ drop (length t - 4) t
    → log_id false s ≡ log_id false t
unfolding log_id
log_id-same s t hs ht e =
    redact_id-long s hs ∙ ap (λ u. codes ".." ++ u) e ∙ sym (redact_id-long t ht)

strip_prefix-append : (p t : Text) → strip_prefix p (p ++ t) ≡ some t
unfolding strip_prefix
strip_prefix-append [] t = refl
strip_prefix-append (c ∷ p) t = ground (arith, strip_prefix-append p t)

or-true : (a b : Bool) → b ≡ true → (a || b) ≡ true
or-true true b h = refl
or-true false b h = h

path_starts : (c rest : Text) → starts_a_path (strip_prefix c (c ++ (codes "::" ++ rest))) ≡ true
unfolding starts_with
path_starts c rest = rw (strip_prefix-append c (codes "::" ++ rest)) refl

-- A crate of the list is muffled in each of its modules.
pub muffled_by-path :
    (before after : List Text) (c rest : Text)
    → muffled_by (before ++ (c ∷ after)) (c ++ (codes "::" ++ rest)) ≡ true
unfolding muffled_by starts_with
muffled_by-path [] after c rest =
    or-true (text_beq (c ++ (codes "::" ++ rest)) c)
      (starts_a_path (strip_prefix c (c ++ (codes "::" ++ rest)))
        || muffled_by after (c ++ (codes "::" ++ rest)))
      (rw (path_starts c rest) refl)
muffled_by-path (b ∷ before) after c rest =
    or-true (text_beq (c ++ (codes "::" ++ rest)) b)
      (starts_a_path (strip_prefix b (c ++ (codes "::" ++ rest)))
        || muffled_by (before ++ (c ∷ after)) (c ++ (codes "::" ++ rest)))
      (or-true (starts_a_path (strip_prefix b (c ++ (codes "::" ++ rest))))
        (muffled_by (before ++ (c ∷ after)) (c ++ (codes "::" ++ rest)))
        (muffled_by-path before after c rest))
