-- ===== src/Http/Framing.antt =====
-- Lines and the blank line that ends a header: the splitting of crates/xous-net-bridge/src/http.rs.
use xous_app_signal.Prelude.{
  drop, drop-append, drop-plus, ℕ, ◌+◌, ◌≡◌, refl, sym, ap, ◌∙◌, Bool, true, false, not, ◌&&◌,
  Option, none, some, Text, List, [], ◌∷◌, ◌++◌, append_assoc, length, length-append, nat_beq,
  arith,
}
use xous_app_signal.Http.{crlf, starts_with, shift, find_header_end, pieces, split_crlf}

-- Whether a character is missing from a text.
unfoldable pub lacks : ℕ → Text → Bool
lacks sep [] = true
lacks sep (c ∷ t) = not (nat_beq c sep) && lacks sep t

-- Whether a text is a line: it has a character, and none is a carriage return.
unfoldable pub is_line : Text → Bool
unfolding lacks
is_line [] = false
is_line (c ∷ t) = lacks 13 (c ∷ t)

unfoldable pub all_lines : List Text → Bool
unfolding is_line
all_lines [] = true
all_lines (l ∷ ls) = is_line l && all_lines ls

-- Lines, with a line end between any two.
unfoldable pub block : Text → List Text → Text
block l [] = l
block l (m ∷ ls) = l ++ (crlf ++ block m ls)

pieces-line : (l t : Text) → lacks 13 l ≡ true → pieces (l ++ (crlf ++ t)) ≡ (l, split_crlf t)
unfolding lacks pieces split_crlf starts_with
pieces-line [] t h = refl
pieces-line (c ∷ l) t h = ground (arith, h, pieces-line l t)

pieces-last : (l : Text) → lacks 13 l ≡ true → pieces l ≡ (l, [])
unfolding lacks pieces
pieces-last [] h = refl
pieces-last (c ∷ l) h = ground (arith, h, pieces-last l)

is_line-lacks : (l : Text) → is_line l ≡ true → lacks 13 l ≡ true
unfolding is_line
is_line-lacks [] h = ground (arith, h)
is_line-lacks (c ∷ l) h = h

and_both : (a b : Bool) → (a && b) ≡ true → (a ≡ true) × (b ≡ true)
and_both true true h = (refl, refl)
and_both true false h = ground (arith, h)
and_both false b h = ground (arith, h)

pub split_crlf-block :
    (l : Text) (ls : List Text) → all_lines (l ∷ ls) ≡ true → split_crlf (block l ls) ≡ l ∷ ls
unfolding split_crlf block all_lines
split_crlf-block l [] h =
    ap (λ p. p.0 ∷ p.1) (pieces-last l (is_line-lacks l (and_both (is_line l) true h).0))
split_crlf-block l (m ∷ ls) h =
    ap (λ p. p.0 ∷ p.1)
      (pieces-line l (block m ls) (is_line-lacks l (and_both (is_line l) (all_lines (m ∷ ls)) h).0))
    ∙ ap (λ q. l ∷ q) (split_crlf-block m ls (and_both (is_line l) (all_lines (m ∷ ls)) h).1)

abbrev pub header_end : Text
header_end = crlf ++ crlf

shift-zero : (o : Option ℕ) → o ≡ shift 0 o
shift-zero none = refl
shift-zero (some i) = ap some (omega arith)

shift-shift : (m n : ℕ) (o : Option ℕ) → shift m (shift n o) ≡ shift (m + n) o
shift-shift m n none = refl
shift-shift m n (some i) = ap some (omega arith)

find-step :
    (c : ℕ) (t : Text)
    → nat_beq c 13 ≡ false
    → find_header_end (c ∷ t) ≡ shift 1 (find_header_end t)
unfolding find_header_end starts_with
find-step c t h = ground (arith, h)

head_lacks :
    (c : ℕ) (l : Text) → lacks 13 (c ∷ l) ≡ true → (nat_beq c 13 ≡ false) × (lacks 13 l ≡ true)
unfolding lacks
head_lacks c l h = ground (arith, h)

find-line :
    (l t : Text)
    → lacks 13 l ≡ true
    → find_header_end (l ++ t) ≡ shift (length l) (find_header_end t)
find-line [] t h = shift-zero (find_header_end t)
find-line (c ∷ l) t h =
    find-step c (l ++ t) (head_lacks c l h).0
    ∙ ap (shift 1) (find-line l t (head_lacks c l h).1)
    ∙ shift-shift 1 (length l) (find_header_end t)
    ∙ ap (λ n. shift n (find_header_end t)) (omega arith)

find-cr :
    (c : ℕ) (t : Text)
    → nat_beq c 13 ≡ false
    → find_header_end (crlf ++ c ∷ t) ≡ shift 1 (find_header_end (10 ∷ c ∷ t))
unfolding find_header_end starts_with
find-cr c t h = ground (arith, h)

-- Behind a line end, a text that starts with a line.
find-break :
    (m t : Text)
    → is_line m ≡ true
    → find_header_end (crlf ++ m ++ t) ≡ shift 2 (find_header_end (m ++ t))
unfolding is_line
find-break [] t h = ground (arith, h)
find-break (c ∷ m) t h =
    find-cr c (m ++ t) (head_lacks c m h).0
    ∙ ap (shift 1) (find-step 10 (c ∷ m ++ t) refl)
    ∙ shift-shift 1 1 (find_header_end (c ∷ m ++ t))

find-break_block :
    (m : Text) (ls : List Text) (t : Text)
    → is_line m ≡ true
    → find_header_end (crlf ++ block m ls ++ t) ≡ shift 2 (find_header_end (block m ls ++ t))
unfolding block
find-break_block m [] t h = find-break m t h
find-break_block m (n ∷ ls) t h =
    ap (λ u. find_header_end (crlf ++ u)) (append_assoc m (crlf ++ block n ls) t)
    ∙ find-break m ((crlf ++ block n ls) ++ t) h
    ∙ ap (λ u. shift 2 (find_header_end u)) (sym (append_assoc m (crlf ++ block n ls) t))

find-blank : (body : Text) → find_header_end (header_end ++ body) ≡ some 0
unfolding find_header_end starts_with
find-blank body = refl

-- The first blank line is behind the lines.
pub find_header_end-block :
    (l : Text) (ls : List Text) (body : Text)
    → all_lines (l ∷ ls) ≡ true
    → find_header_end (block l ls ++ (header_end ++ body)) ≡ some (length (block l ls))
unfolding block all_lines
find_header_end-block l [] body h =
    find-line l (header_end ++ body) (is_line-lacks l (and_both (is_line l) true h).0)
    ∙ ap (shift (length l)) (find-blank body)
    ∙ ap some (omega arith)
find_header_end-block l (m ∷ ls) body h =
    let (line, lines) = and_both (is_line l) (all_lines (m ∷ ls)) h in
    ap find_header_end (append_assoc l (crlf ++ block m ls) (header_end ++ body))
    ∙ find-line l ((crlf ++ block m ls) ++ (header_end ++ body)) (is_line-lacks l line)
    ∙ ap (shift (length l))
        (find-break_block m ls (header_end ++ body) (and_both (is_line m) (all_lines ls) lines).0)
    ∙ ap (λ o. shift (length l) (shift 2 o)) (find_header_end-block m ls body lines)
    ∙ ap some (ground (arith, length-append l (crlf ++ block m ls)))

-- What is behind the blank line.
pub behind : (t body : Text) → drop (length t + 4) (t ++ (header_end ++ body)) ≡ body
behind t body =
    sym (drop-plus (length t) 4 (t ++ (header_end ++ body)))
    ∙ ap (drop 4) (drop-append t (header_end ++ body))
