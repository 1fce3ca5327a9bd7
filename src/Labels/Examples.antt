-- ===== src/Labels/Examples.antt =====
-- Tests of the text helpers, after those of the source file, and the theorems at concrete inputs.
use xous_app_signal.Prelude.{◌≡◌, refl, true, false, [], ◌∷◌, ◌++◌, Text, codes}
use xous_app_signal.Labels.{ellipsis, ellipsize, decimal, brief_relative, looks_like_raw_uuid}
use xous_app_signal.Labels.Laws.{read, read-decimal}

ellipsize_truncates : ellipsize (codes "hello world") 5 ≡ codes "hell" ++ ellipsis ∷ []
unfolding ellipsize
ellipsize_truncates = refl

brief_relative_buckets :
    (brief_relative 0 59_999 ≡ codes "59s")
    × (brief_relative 0 720_000 ≡ codes "12m")
    × (brief_relative 0 82_800_000 ≡ codes "23h")
    × (brief_relative 0 86_400_000 ≡ codes "Yest")
    × (brief_relative 0 604_800_000 ≡ codes "7d")
    × (brief_relative 1_000_000 0 ≡ codes "0s")
unfolding brief_relative decimal
brief_relative_buckets = (refl, refl, refl, refl, refl, refl)

abbrev raw : Text
raw = codes "01234567-89ab-cdef-0011-223344556677"

raw_is_raw : looks_like_raw_uuid raw ≡ true
unfolding looks_like_raw_uuid
raw_is_raw = refl

you_is_no_uuid : looks_like_raw_uuid (codes "You") ≡ false
unfolding looks_like_raw_uuid
you_is_no_uuid = refl

read-decimal_example : read 0 (decimal 604_800) ≡ 604_800
read-decimal_example = read-decimal 604_800
