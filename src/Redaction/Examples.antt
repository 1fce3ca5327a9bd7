-- ===== src/Redaction/Examples.antt =====
-- Runs of the redaction and of the filter.
use xous_app_signal.Prelude.{◌≡◌, refl, false, codes, text_beq}
use xous_app_signal.Redaction.{redact_id, muffled}

redact_id-example : redact_id (codes "+15551234567") ≡ codes "..4567"
unfolding redact_id
redact_id-example = refl

muffled-example : muffled (codes "presage_store_pddb") ≡ false
unfolding muffled text_beq
muffled-example = refl
