-- ===== src/Pddb/Listing/Parsing.antt =====
-- The parser of a listing page in `PddbClient::list_keys` (crates/xous-pddb-ipc/src/client.rs),
-- against the wire format that `PddbKeyList` documents (crates/xous-pddb-ipc/src/api.rs).
use xous_app_signal.Prelude.{
  ◌⊎◌, take-append, drop-append, ℕ, zero, suc, ◌+◌, ◌≤◌, ◌<◌, ◌≡◌, refl, sym, Bool, true, false,
  none, some, Bool-cases, Text, All, List, [], ◌∷◌, ◌++◌, append_assoc, length, length-append, take,
  drop, ltb, Result, ok, err, ◌>>=◌, arith, inl, inr,
}
use xous_app_signal.Pddb
use xous_app_signal.Pddb.{
  ErrorKind, Message, max_pddbklistlen, ListToken, PddbKeyList, PddbRetcode, Transport, zeros,
}
use xous_app_signal.Pddb.Client.{and_then}
use xous_app_signal.Pddb.Listing.{byte_at, slice_at, read_name, parse_page}

slice_at-some :
    (data_bytes : Text) (idx len : ℕ)
    → idx + len ≤ length data_bytes
    → slice_at data_bytes idx len ≡ some (take len (drop idx data_bytes))
unfolding slice_at
slice_at-some data_bytes idx len h = ground (arith, h)

byte_at-append : (w : Text) (b : ℕ) (r : Text) → byte_at (w ++ (b ∷ r)) (length w) ≡ some b
unfolding byte_at
byte_at-append [] b r = refl
byte_at-append (x ∷ w) b r = byte_at-append w b r

byte_at-end : (w : Text) → byte_at w (length w) ≡ none
unfolding byte_at
byte_at-end [] = refl
byte_at-end (x ∷ w) = byte_at-end w

slice_at-append : (w a r : Text) → slice_at (w ++ (a ++ r)) (length w) (length a) ≡ some a
unfolding slice_at
slice_at-append w a r =
    ground
      (arith, length-append w (a ++ r), length-append a r, drop-append w (a ++ r), take-append a r)

full : (n : ℕ) → n ≡ max_pddbklistlen → ltb n max_pddbklistlen ≡ false
full n h = ground arith

inside : (n : ℕ) → n < max_pddbklistlen → ltb n max_pddbklistlen ≡ true
inside n h = ground arith

byte_at-cases :
    (data_bytes : Text) (idx : ℕ)
    → idx < length data_bytes
    → (byte_at data_bytes idx ≡ some 0) ⊎ ((n : ℕ) × (byte_at data_bytes idx ≡ some (suc n)))
unfolding byte_at
byte_at-cases [] idx h = absurd (omega (arith, h))
byte_at-cases (zero ∷ data_bytes) zero h = inl refl
byte_at-cases (suc n ∷ data_bytes) zero h = inr (n, refl)
byte_at-cases (b ∷ data_bytes) (suc idx) h = byte_at-cases data_bytes idx (omega (arith, h))

within : (n : ℕ) → n ≤ max_pddbklistlen → ltb max_pddbklistlen n ≡ false
within n h = ground arith

ap2 : {A B C : Type 0} (f : A → B → C) {a a' : A} {b b' : B} → a ≡ a' → b ≡ b' → f a b ≡ f a' b'
ap2 f p q = λ i. f (p i) (q i)

module _ (is_utf8 : Text → Bool) where
  read_name_total :
      (page : Text) (idx len : ℕ)
      → length page ≡ max_pddbklistlen
      → ((e : Pddb.Error) × (read_name is_utf8 page idx len ≡ some (err e)))
        ⊎ ((name : Text) × (idx + len ≤ max_pddbklistlen)
            × (read_name is_utf8 page idx len ≡ some (ok name)))
  unfolding read_name
  read_name_total page idx len size = elim (Bool-cases (ltb max_pddbklistlen (idx + len))) [
    | inl over ↦ inl (
      record { kind = ErrorKind.internal; msg = Message.text "key list overran buffer" },
      rw (read_name, over) refl,
    )
    | inr fits ↦
        let name = take len (drop idx page) in
        let here = slice_at-some page idx len (ground (arith, fits, size)) in
        elim (Bool-cases (is_utf8 name)) [
          | inl good ↦ inr (name, ground (arith, fits), rw (read_name, fits, here, good) refl)
          | inr bad ↦ inl (
            record { kind = ErrorKind.internal; msg = Message.text "key name not utf-8" },
            rw (read_name, and_then, fits, here, bad) refl,
          )
        ]
  ]

  -- On any page of the right size the parser returns: no index leaves the page, and one step per
  -- byte of the page is enough.
  pub parse_page_total :
      (fuel : ℕ) (page : Text) (idx : ℕ)
      → length page ≡ max_pddbklistlen
      → idx ≤ max_pddbklistlen
      → max_pddbklistlen < fuel + idx
      → (r : Result (List Text) Pddb.Error) × (parse_page is_utf8 fuel page idx ≡ some r)
  unfolding parse_page
  parse_page_total zero page idx size h f = absurd (omega (arith, h, f))
  parse_page_total (suc fuel) page idx size h f = elim (Bool-cases (ltb idx max_pddbklistlen)) [
    | inr past ↦ (ok [], rw (parse_page, past) refl)
    | inl more ↦ elim (byte_at-cases page idx (ground (arith, more, size))) [
      | inl here ↦ (ok [], rw (parse_page, more, here) refl)
      | inr (n, here) ↦ elim (read_name_total page (idx + 1) (suc n) size) [
        | inl (e, bad) ↦ (err e, rw (parse_page, more, here, bad) refl)
        | inr (name, fits, good) ↦
            let (r, done) =
              parse_page_total fuel page (idx + 1 + suc n) size fits (omega (arith, f)) in
            (r >>= (λ names. ok (name ∷ names)), rw (parse_page, more, here, good, done) refl)
      ]
    ]
  ]

  -- The documented layout of a page of names.
  unfoldable pub packed_names : List Text → Text
  packed_names [] = []
  packed_names (name ∷ names) = (length name ∷ name) ++ packed_names names

  abbrev pub IsKeyName : Text → Type 0
  IsKeyName name = (1 ≤ length name) × (is_utf8 name ≡ true)

  read_name-append :
      (w name r : Text)
      → is_utf8 name ≡ true
      → length w + 1 + length name ≤ max_pddbklistlen
      → read_name is_utf8 (w ++ ((length name ∷ name) ++ r)) (length w + 1) (length name)
        ≡ some (ok name)
  unfolding read_name
  read_name-append w name r good fits =
      let hit = slice_at-append (w ++ (length name ∷ [])) name r in
      let here =
        rw (append_assoc w (length name ∷ []) (name ++ r), length-append w (length name ∷ [])) at
          hit in
      rw (read_name, within (length w + 1 + length name) fits, here, good) refl

  parse_page-next :
      (fuel : ℕ) (w name r : Text)
      → parse_page is_utf8 fuel (w ++ ((length name ∷ name) ++ r)) (length w + 1 + length name)
        ≡ parse_page is_utf8 fuel
            ((w ++ (length name ∷ name)) ++ r)
            (length (w ++ (length name ∷ name)))
  parse_page-next fuel w name r =
      ap2 (parse_page is_utf8 fuel) (sym (append_assoc w (length name ∷ name) r))
        (omega (arith, length-append w (length name ∷ name)))

  parse_page-full :
      (fuel : ℕ) (w : Text)
      → length w ≡ max_pddbklistlen
      → parse_page is_utf8 (suc fuel) (w ++ []) (length w) ≡ some (ok [])
  unfolding parse_page
  parse_page-full fuel w h = rw (parse_page, full (length w) h) refl

  parse_page-end :
      (fuel : ℕ) (w r : Text)
      → length w < max_pddbklistlen
      → parse_page is_utf8 (suc fuel) (w ++ (0 ∷ r)) (length w) ≡ some (ok [])
  unfolding parse_page
  parse_page-end fuel w r h = rw (parse_page, inside (length w) h, byte_at-append w 0 r) refl

  parse_page-step :
      (fuel c : ℕ) (w name r : Text) (names : List Text)
      → is_utf8 (c ∷ name) ≡ true
      → length w + 2 + length name ≤ max_pddbklistlen
      → parse_page is_utf8 fuel
          ((w ++ (length (c ∷ name) ∷ c ∷ name)) ++ r)
          (length (w ++ (length (c ∷ name) ∷ c ∷ name)))
        ≡ some (ok names)
      → parse_page is_utf8 (suc fuel) (w ++ ((length (c ∷ name) ∷ c ∷ name) ++ r)) (length w)
        ≡ some (ok ((c ∷ name) ∷ names))
  unfolding parse_page
  parse_page-step fuel c w name r names good fits done =
      rw
        (
          parse_page,
          inside (length w) (omega (arith, fits)),
          byte_at-append w (suc (length name)) ((c ∷ name) ++ r),
          read_name-append w (c ∷ name) r good (omega (arith, fits)),
          parse_page-next fuel w (c ∷ name) r,
          done,
        )
        refl

  -- A page of packed names, filled up with zeros, parses to the names.
  pub parse_page-packed :
      (fuel : ℕ) (w : Text) (names : List Text) (k : ℕ)
      → All IsKeyName names
      → length w + length (packed_names names) + k ≡ max_pddbklistlen
      → max_pddbklistlen < fuel + length w
      → parse_page is_utf8 fuel (w ++ (packed_names names ++ zeros k)) (length w) ≡ some (ok names)
  unfolding packed_names
  parse_page-packed zero w names k all size f = absurd (omega (arith, size, f))
  parse_page-packed (suc fuel) w [] zero all size f = parse_page-full fuel w (omega (arith, size))
  parse_page-packed (suc fuel) w [] (suc k) all size f =
      parse_page-end fuel w (zeros k) (omega (arith, size))
  parse_page-packed (suc fuel) w ([] ∷ names) k ((pos, _), all) size f = absurd (omega (arith, pos))
  parse_page-packed (suc fuel) w ((c ∷ name) ∷ names) k ((pos, good), all) size f =
      let text = length (c ∷ name) ∷ c ∷ name in
      let sum = length-append text (packed_names names) in
      let longer = length-append w text in
      rw (append_assoc text (packed_names names) (zeros k)) (
        parse_page-step fuel c w name (packed_names names ++ zeros k) names good
          (omega (arith, size, sum))
          (parse_page-packed fuel (w ++ text) names k all (omega (arith, size, sum, longer))
            (omega (arith, f, longer))))
