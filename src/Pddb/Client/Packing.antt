-- ===== src/Pddb/Client/Packing.antt =====
-- The page that `PddbClient::write_batch` packs, against the wire format that `PddbWriteBatch`
-- documents (crates/xous-pddb-ipc/src/api.rs).
use xous_app_signal.Prelude.{
  ℕ, ◌+◌, ◌-◌, ◌≤◌, ◌≡◌, refl, sym, ◌∙◌, Option, some, All, subst, List, [], ◌∷◌, ◌++◌, append-nil,
  append_assoc, length, length-append, Result, ok, err, arith, ◌⊎◌, inl, inr, Result-cases,
}
use xous_app_signal.Backend.{Bytes, Entry}
use xous_app_signal.Pddb
use xous_app_signal.Pddb.{ErrorKind, zeros, max_pddb_write_batch_len}
use xous_app_signal.Pddb.Client.Format.{encoded, encoded_all, Caps, decode, decode-encoded}
use xous_app_signal.Pddb.Client.{copy_at, and_then, check_entry, pack_entries, pack_batch}
use xous_app_signal.Pddb.Client.Copies.{
  length-zeros, zero_plus, suc_add, copy_at_lem, check_entry-ok, check_entry-Fits, check_entry-kind,
  pack_entry_lem,
}

minus_minus : (k a b c : ℕ) → c ≡ a + b → k - a - b ≡ k - c
minus_minus k a b c h = omega arith

minus_zero : (k : ℕ) → k - 0 ≡ k
minus_zero k = omega arith

-- What the loop over the entries leaves, or that it refuses the batch.
abbrev pub Packable : ℕ → List Entry → Type 0
Packable k entries = All Caps entries × (length (encoded_all entries) + 1 ≤ k)

abbrev pub IsRefused : {A : Type 0} → Option (Result A Pddb.Error) → Type 0
IsRefused r = (e : Pddb.Error) × (r ≡ some (err e)) × (e.kind ≡ ErrorKind.invalid_input)

pack_entries-cases :
    (w : Bytes) (k : ℕ) (entries : List Entry)
    → length w + k ≡ max_pddb_write_batch_len
    → 1 ≤ k
    → (Packable k entries
        × (pack_entries (w ++ zeros k, length w) entries
            ≡ some (
                ok (
                  (w ++ encoded_all entries) ++ zeros (k - length (encoded_all entries)),
                  length (w ++ encoded_all entries),
                ))))
      ⊎ (¬ Packable k entries × IsRefused (pack_entries (w ++ zeros k, length w) entries))
unfolding pack_entries encoded_all
pack_entries-cases w k [] room h = inl ((tt, h), rw (append-nil w, minus_zero k) refl)
pack_entries-cases w k (entry ∷ entries) room h =
    elim (Result-cases (check_entry (length w) entry)) [
      | inl (_, passed) ↦
          let (caps, fits) = check_entry-Fits (length w) entry passed in
          let size = length (encoded entry) in
          let first = pack_entry_lem w entry k caps (omega (arith, room, fits)) in
          let longer = length-append w (encoded entry) in
          let sum = length-append (encoded entry) (encoded_all entries) in
          elim (pack_entries-cases (w ++ encoded entry) (k - size) entries
            (omega (arith, room, fits, longer)) (omega (arith, room, fits))) [
              | inl ((all, bound), done) ↦ inl (
                ((caps, all), omega (arith, sum, bound, room, fits)),
                rw
                    (
                      pack_entries,
                      and_then,
                      passed,
                      first,
                      done,
                      append_assoc w (encoded entry) (encoded_all entries),
                    )
                    (rw (minus_minus k size (length (encoded_all entries)) _ sum) refl),
              )
              | inr (misfit, (e, refused, kind)) ↦ inr (
                (λ ((_, all), bound). misfit (all, omega (arith, sum, bound))),
                (e, rw (pack_entries, and_then, passed, first, refused) refl, kind),
              )
            ]
      | inr (e, refused) ↦ inr (
        (λ ((caps, _), bound). ground (
          arith,
          refused,
          check_entry-ok (length w) entry (
            caps,
            omega (arith, room, bound, length-append (encoded entry) (encoded_all entries)),
          ),
        )),
        (e, rw (pack_entries, refused) refl, check_entry-kind (length w) entry e refused),
      )
    ]

zeros_succ : (k : ℕ) → zeros (1 + k) ≡ 0 ∷ zeros k
zeros_succ k = rw (suc_add 0 k, zero_plus k) refl

terminator :
    (w : Bytes) (k : ℕ)
    → copy_at (w ++ zeros (1 + k), length w) (0 ∷ []) ≡ some (w ++ zeros (1 + k), length w + 1)
terminator w k =
    rw
      (
        copy_at_lem w (0 ∷ []) k,
        append_assoc w (0 ∷ []) (zeros k),
        zeros_succ k,
        length-append w (0 ∷ []),
      )
      refl

end_of_page :
    (n : ℕ)
    → n + 1 ≤ max_pddb_write_batch_len
    → 1 + (max_pddb_write_batch_len - 1 - n) ≡ max_pddb_write_batch_len - n
end_of_page n h = omega arith

terminated :
    (w : Bytes)
    → length w + 1 ≤ max_pddb_write_batch_len
    → copy_at (w ++ zeros (max_pddb_write_batch_len - length w), length w) (0 ∷ [])
      ≡ some (w ++ zeros (max_pddb_write_batch_len - length w), length w + 1)
terminated w h =
    subst (λ n. copy_at (w ++ zeros n, length w) (0 ∷ []) ≡ some (w ++ zeros n, length w + 1))
      (end_of_page (length w) h) (terminator w (max_pddb_write_batch_len - 1 - length w))

-- A batch is packed exactly if every entry has its caps and the whole fits the page with its
-- terminator: then the page is the documented layout, filled up with zeros. Any other batch is
-- refused as invalid input, and no index ever leaves the page.
pub pack_batch-cases :
    (entries : List Entry)
    → (Packable max_pddb_write_batch_len entries
        × (pack_batch entries
            ≡ some (
                ok (
                  encoded_all entries
                  ++ zeros (max_pddb_write_batch_len - length (encoded_all entries))))))
      ⊎ (¬ Packable max_pddb_write_batch_len entries × IsRefused (pack_batch entries))
unfolding pack_batch
pack_batch-cases entries =
    elim (pack_entries-cases [] max_pddb_write_batch_len entries (omega arith) (omega arith)) [
      | inl ((all, bound), done) ↦ inl (
        (all, bound),
        rw (pack_batch, and_then, done, terminated (encoded_all entries) bound)
            (ground (arith, bound)),
      )
      | inr (misfit, (e, refused, kind)) ↦
          inr (misfit, (e, rw (pack_batch, and_then, refused) refl, kind))
    ]

ok_of : {a b : Bytes} → Path (Option (Result Bytes Pddb.Error)) (some (ok a)) (some (ok b)) → a ≡ b
ok_of h = ground (arith, h)

-- A page that is packed has exactly the page's size, and a reader of the documented format gets
-- back the entries, in their order and with their exact bytes.
pub pack_batch-decode :
    (entries : List Entry) (page : Bytes)
    → pack_batch entries ≡ some (ok page)
    → (length page ≡ max_pddb_write_batch_len)
      × (decode max_pddb_write_batch_len page ≡ some entries)
pack_batch-decode entries page h = elim (pack_batch-cases entries) [
  | inl ((all, bound), done) ↦
      let same = ok_of (sym h ∙ done) in
      (
        ground (
          arith,
          same,
          bound,
          length-append (encoded_all entries)
              (zeros (max_pddb_write_batch_len - length (encoded_all entries))),
          length-zeros (max_pddb_write_batch_len - length (encoded_all entries)),
        ),
        rw same (
            subst
              (λ n. decode max_pddb_write_batch_len (encoded_all entries ++ zeros n) ≡ some entries)
              (end_of_page (length (encoded_all entries)) bound)
              (rw (zeros_succ (max_pddb_write_batch_len - 1 - length (encoded_all entries))) (
                decode-encoded entries
                  (zeros (max_pddb_write_batch_len - 1 - length (encoded_all entries)))
                  max_pddb_write_batch_len all bound))),
      )
  | inr (misfit, (e, refused, kind)) ↦ absurd (ground (arith, h, refused))
]
