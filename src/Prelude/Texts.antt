-- ===== src/Prelude/Texts.antt =====
-- Text: the list of its bytes, or of its characters where the code walks `chars()`.
use Prim.Native.Nat.{ℕ}
use Prim.Native.Char.{code}
use Prim.Native.String.{String}
use mathlib.Core.Path.{◌≡◌, refl}
use mathlib.Core.Logic.{◌↔◌}
use mathlib.Core.Bool.{Bool, true, false, ◌&&◌}
use mathlib.Core.List.{List, [], ◌∷◌}
use native.Mathlib.Omega.{arith}
use xous_app_signal.Prelude.Tests.{nat_beq, HasEq}

abbrev pub Text : Type 0
Text = List ℕ

-- The code points of a literal: its bytes, where it is ASCII.
abbrev pub codes : String → Text
codes String.[] = []
codes (String.◌∷◌ c s) = code c ∷ codes s

unfoldable pub text_beq : Text → Text → Bool
text_beq [] [] = true
text_beq (x ∷ xs) (y ∷ ys) = nat_beq x y && text_beq xs ys
text_beq _ _ = false

text_beq→eq : (a b : Text) → text_beq a b ≡ true → a ≡ b
unfolding text_beq
text_beq→eq [] [] h = refl
text_beq→eq (x ∷ xs) (y ∷ ys) h = ground (arith, text_beq→eq xs ys)
text_beq→eq [] (y ∷ ys) h = ground arith
text_beq→eq (x ∷ xs) [] h = ground arith

text_beq_refl : (a : Text) → text_beq a a ≡ true
unfolding text_beq
text_beq_refl [] = refl
text_beq_refl (x ∷ xs) = ground (arith, text_beq_refl xs)

pub text_beq_iff : (a b : Text) → (text_beq a b ≡ true) ↔ (a ≡ b)
text_beq_iff a b = (text_beq→eq a b, λ e. rw e (text_beq_refl b))

instance abbrev pub text_eq : HasEq Text
text_eq = record { same = text_beq; same_iff = text_beq_iff }
