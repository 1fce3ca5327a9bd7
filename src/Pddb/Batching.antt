-- ===== src/Pddb/Batching.antt =====
-- `PddbClient::write_batch` of crates/xous-pddb-ipc/src/client.rs as a whole: the page it sends and
-- the batches it refuses.
use xous_app_signal.Prelude.{
  false, ◌≡◌, refl, ◌⊎◌, inl, inr, some, List, [], ◌∷◌, length, Result, err, ◌>>=◌,
}
use xous_app_signal.Backend.{Bytes, Entry}
use xous_app_signal.Pddb
use xous_app_signal.Pddb.{max_pddb_write_batch_len, ErrorKind, PddbRetcode, Transport}
use xous_app_signal.Pddb.Client.{batch_reply}
use xous_app_signal.Pddb.Client.Format.{decode}
use xous_app_signal.Pddb.Client.Packing.{Packable, pack_batch-cases, pack_batch-decode}
use xous_app_signal.Pddb.Requests.{write_batch, lent}

module _ {S : Type 0} (transport : Transport S) where
  -- One page sent, and what the reply becomes.
  abbrev pub sent : S → Bytes → S × Result (Unit {0}) Pddb.Error
  sent s page =
      let (s', r) = transport.batch s (record {
        basis_specified = false;
        basis = [];
        data_bytes = page;
        retcode = PddbRetcode.uninit;
      }) in
      (
        s',
        lent "Buffer::into_buf WriteKeyBatch" "lend_mut WriteKeyBatch" "to_original WriteKeyBatch" r
            >>= (λ response. batch_reply response.retcode),
      )

  abbrev pub Outcome : S → List Entry → Type 0
  Outcome s entries =
      (Packable max_pddb_write_batch_len entries
        × ((page : Bytes) × (length page ≡ max_pddb_write_batch_len)
            × (decode max_pddb_write_batch_len page ≡ some entries)
            × (write_batch transport s entries ≡ some (sent s page))))
      ⊎ (¬ Packable max_pddb_write_batch_len entries
          × ((e : Pddb.Error) × (write_batch transport s entries ≡ some (s, err e))
              × (e.kind ≡ ErrorKind.invalid_input)))

  -- A batch whose entries have their caps and whose packed size fits is sent as one page of the
  -- page's size that reads back, by the documented wire format, as exactly the entries in order;
  -- any other batch is refused as invalid input and leaves the server as it was. No index ever
  -- leaves the page.
  pub write_batch_lem : (s : S) (entry : Entry) (entries : List Entry) → Outcome s (entry ∷ entries)
  unfolding write_batch
  write_batch_lem s entry entries = elim (pack_batch-cases (entry ∷ entries)) [
    | inl (fits, packed) ↦
        let (size, read) = pack_batch-decode (entry ∷ entries) _ packed in
        inl (fits, (_, size, read, rw (write_batch, packed) refl))
    | inr (misfit, (e, refused, kind)) ↦ inr (misfit, (e, rw (write_batch, refused) refl, kind))
  ]
