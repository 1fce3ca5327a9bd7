-- ===== src/Redaction.antt =====
-- What reaches the log: identifiers, in crates/presage-store-pddb/src/redact.rs, and the records of
-- other crates, in crates/xous-app-signal/src/log_filter.rs. A feature of the build is a flag.
mod Laws
mod Examples
use xous_app_signal.Prelude.{
  ℕ, ◌-◌, Bool, true, false, not, ◌&&◌, ◌||◌, Text, codes, List, [], ◌∷◌, ◌++◌, length, drop, leb,
  nat_beq, text_beq, if◌then◌else◌, Option, none, some,
}
use xous_app_signal.Http.{starts_with}

-- A text is its characters here.
unfoldable pub redact_id : Text → Text
redact_id s = if leb (length s) 4 then s else codes ".." ++ drop (length s - 4) s

unfoldable pub log_id : Bool → Text → Text
unfolding redact_id
log_id verbose_pii s = if verbose_pii then s else redact_id s

abbrev pub muffled_crates : List Text
muffled_crates =
    codes "presage"
    ∷ codes "libsignal"
    ∷ codes "libsignal_service"
    ∷ codes "libsignal_protocol"
    ∷ codes "zkgroup"
    ∷ []

unfoldable pub strip_prefix : Text → Text → Option Text
strip_prefix [] t = some t
strip_prefix (p ∷ ps) [] = none
strip_prefix (p ∷ ps) (c ∷ t) = let rest = strip_prefix ps t in if nat_beq p c then rest else none

abbrev pub starts_a_path : Option Text → Bool
starts_a_path none = false
starts_a_path (some rest) = starts_with (codes "::") rest

unfoldable pub muffled_by : List Text → Text → Bool
unfolding strip_prefix starts_with
muffled_by [] target = false
muffled_by (c ∷ crates) target =
    text_beq target c || (starts_a_path (strip_prefix c target) || muffled_by crates target)

unfoldable pub muffled : Text → Bool
unfolding muffled_by
muffled target = muffled_by muffled_crates target

-- `log::Level`, in its order.
pub data Level : Type 0 where
  error warn info debug trace : Level

-- `level >= Level::Info`
abbrev pub at_least_info : Level → Bool
at_least_info error = false
at_least_info warn = false
at_least_info _ = true

unfoldable pub enabled : Bool → Level → Text → Bool
unfolding muffled
enabled verbose_upstream_logs level target =
    verbose_upstream_logs || not (at_least_info level && muffled target)
