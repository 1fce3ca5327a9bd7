-- ===== src/Buffering/Working.antt =====
-- The buffering backend answers where the one below it does:
-- crates/presage-store-pddb/src/buffering_backend.rs.
use xous_app_signal.Prelude.{◌≡◌, false, Option, Text, text_eq, ok, arith}
use xous_app_signal.Collections.HashMap.{Iteration, pair_eq}
use xous_app_signal.Backend.{Bytes, KvBackend}
use xous_app_signal.Backend.Laws.{Laws, Works, default_put_batch-works}
use xous_app_signal.Buffering.{
  BufferEntry, BufferingBackend, get, put_bytes, delete_key, delete_dict, list_keys, buffering,
}
use xous_app_signal.Buffering.Overlay.{visible, IsCoherent, buffering_laws}

module _ {S : Type 0} (b : KvBackend S) (order : Iteration (Text × Text) BufferEntry)
    (view : S → Text → Text → Option Bytes) (IsValid : S → Type 0) where
  -- A coherent wrapper whose buffer's mutex is sound.
  abbrev pub IsReady : BufferingBackend S → Type 0
  IsReady s = IsCoherent b order view IsValid s × (s.poisoned ≡ false)

  module _ (l : Laws b view IsValid) (w : Works b IsValid) where
    put_bytes-IsReady :
        (s : BufferingBackend S) (d k : Text) (v : Bytes)
        → IsReady s
        → IsReady (put_bytes b order s d k v).0
    unfolding put_bytes buffering
    put_bytes-IsReady s d k v (c, p) =
        ((buffering_laws b order view IsValid l).put_IsValid s d k v c, ground (arith, p))

    put_bytes-works :
        (s : BufferingBackend S) (d k : Text) (v : Bytes)
        → IsReady s
        → (put_bytes b order s d k v).1 ≡ ok tt
    unfolding put_bytes
    put_bytes-works s d k v (c, p) = ground (arith, p, w.put_works s.inner d k v c.inner_IsValid)

    buffering_works : Works (buffering b order) IsReady
    unfolding buffering get delete_key delete_dict list_keys
    buffering_works = record {
      get_works = λ s d k r. ground (arith, w.get_works s.inner d k r.0.inner_IsValid);
      put_works = put_bytes-works;
      batch_works = λ s es.
          default_put_batch-works (put_bytes b order) IsReady put_bytes-IsReady put_bytes-works es
            s;
      delete_works = λ s d k r. ground (arith, r.1, w.delete_works s.inner d k r.0.inner_IsValid);
      delete_dict_works = λ s d r. ground (arith, w.delete_dict_works s.inner d r.0.inner_IsValid);
      list_keys_works = λ s d r. ground (arith, r.1, w.list_keys_works s.inner d r.0.inner_IsValid);
    }

    -- The buffering backend over a backend with the laws has them too, in and out of a batch, over
    -- the view that reads the buffer first: what is read, which entries a write changes, and which
    -- keys are listed. Over a backend whose operations say `ok` on its valid states, those of a
    -- coherent wrapper with a sound mutex do.
    pub buffering_refines :
        Laws (buffering b order) (visible b order view IsValid) (IsCoherent b order view IsValid)
        × Works (buffering b order) IsReady
    buffering_refines = (buffering_laws b order view IsValid l, buffering_works)
