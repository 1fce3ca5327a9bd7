-- ===== src/Buffering/Overlay.antt =====
-- What a reader of the buffering backend sees, and that the wrapper is itself a lawful backend
-- over that view: reads go through the buffer, and `list_keys` agrees with `get`.
use xous_app_signal.Prelude.{
  ◌≡◌, false, not, ◌&&◌, Option, none, some, List, [], ◌∷◌, arith, Text, text_beq, text_beq_iff,
  text_eq, if◌then◌else◌, if_keeps, Result, Result-cases, inl, inr, ok,
}
use xous_app_signal.Collections.HashMap.{
  Iteration, NodupKeys, pair_eq, lookup, lookup-insert, lookup-retain, insert-NodupKeys,
  retain-NodupKeys,
}
use xous_app_signal.Collections.BTreeSet
use xous_app_signal.Collections.BTreeSet.{
  BTreeSet, contains, contains-insert, contains-remove, contains-collect,
}
use xous_app_signal.Backend.{Error, Bytes, KvBackend}
use xous_app_signal.Backend.Laws.{
  Laws, same_key, is_some, default_put_batch-ok, default_put_batch-frame, default_put_batch-IsValid,
}
use xous_app_signal.Buffering.{
  BufferEntry, put, delete, defer, BufferingBackend, overlay_keys, put_bytes, delete_key, list_keys,
  buffering,
}

-- A buffered entry hides what the inner backend holds.
abbrev pub overlay : Option BufferEntry → Option Bytes → Option Bytes
overlay (some (put bytes)) below = some bytes
overlay (some delete) below = none
overlay none below = below

overlay_keys-lookup :
    (d k : Text) (m : List ((Text × Text) × BufferEntry)) (keys : BTreeSet) (below : Option Bytes)
    → NodupKeys m
    → contains k keys ≡ is_some below
    → contains k (overlay_keys d m keys) ≡ is_some (overlay (lookup (d, k) m) below)
unfolding overlay_keys lookup
overlay_keys-lookup d k [] keys below u h = h
overlay_keys-lookup d k (((d', k'), put v) ∷ m) keys below u h = ground (
  arith,
  overlay_keys-lookup d k m (if text_beq d' d then BTreeSet.insert k' keys else keys)
      (if same_key d' k' d k then some v else below) u.1,
  contains-insert k' k keys,
  text_beq_iff d' d,
  text_beq_iff k' k,
)
overlay_keys-lookup d k (((d', k'), delete) ∷ m) keys below u h = ground (
  arith,
  overlay_keys-lookup d k m (if text_beq d' d then BTreeSet.remove k' keys else keys)
      (if same_key d' k' d k then none else below) u.1,
  contains-remove k' k keys,
  text_beq_iff d' d,
  text_beq_iff k' k,
)

module _ {S : Type 0} (b : KvBackend S) (order : Iteration (Text × Text) BufferEntry)
    (view : S → Text → Text → Option Bytes) (IsValid : S → Type 0) where
  abbrev pub visible : BufferingBackend S → Text → Text → Option Bytes
  visible s d k =
      if s.batching && not s.poisoned
      then overlay (lookup (d, k) s.buffer) (view s.inner d k)
      else view s.inner d k

  pub record IsCoherent (s : BufferingBackend S) : Type 0 where
    pub inner_IsValid : IsValid s.inner
    pub nodup : NodupKeys s.buffer

  module _ (l : Laws b view IsValid) where
    put_ok :
        (s : BufferingBackend S) (d k : Text) (v : Bytes) (d' k' : Text)
        → (put_bytes b order s d k v).1 ≡ ok tt
        → visible (put_bytes b order s d k v).0 d' k'
          ≡ (if same_key d k d' k' then some v else visible s d' k')
    unfolding put_bytes
    put_ok s d k v d' k' h =
        ground (arith, lookup-insert (d, k) (d', k') (put v) s.buffer, l.put_ok s.inner d k v d' k')

    put_frame :
        (s : BufferingBackend S) (d k : Text) (v : Bytes) (d' k' : Text)
        → same_key d k d' k' ≡ false
        → visible (put_bytes b order s d k v).0 d' k' ≡ visible s d' k'
    unfolding put_bytes
    put_frame s d k v d' k' h =
        ground
          (arith, lookup-insert (d, k) (d', k') (put v) s.buffer, l.put_frame s.inner d k v d' k')

    defer-IsCoherent :
        (s : BufferingBackend S) (k : Text × Text) (entry : BufferEntry)
        → IsCoherent s
        → IsCoherent (defer s k.0 k.1 entry).0
    defer-IsCoherent s k entry c =
        if_keeps (λ (t : BufferingBackend S × Result (Unit {0}) Error). IsCoherent t.0) s.poisoned c
          (record {
            inner_IsValid = c.inner_IsValid;
            nodup = insert-NodupKeys k entry s.buffer c.nodup;
          })

    put_IsCoherent :
        (s : BufferingBackend S) (d k : Text) (v : Bytes)
        → IsCoherent s
        → IsCoherent (put_bytes b order s d k v).0
    unfolding put_bytes
    put_IsCoherent s d k v c =
        if_keeps (λ (t : BufferingBackend S × Result (Unit {0}) Error). IsCoherent t.0) s.batching
          (defer-IsCoherent s (d, k) (put v) c)
          (record { inner_IsValid = l.put_IsValid s.inner d k v c.inner_IsValid; nodup = c.nodup })

    delete_IsCoherent :
        (s : BufferingBackend S) (d k : Text)
        → IsCoherent s
        → IsCoherent (delete_key b order s d k).0
    unfolding delete_key
    delete_IsCoherent s d k c =
        if_keeps (λ (t : BufferingBackend S × Result (Unit {0}) Error). IsCoherent t.0) s.batching
          (defer-IsCoherent s (d, k) delete c)
          (record { inner_IsValid = l.delete_IsValid s.inner d k c.inner_IsValid; nodup = c.nodup })

    -- Outside a batch `list_keys` is the inner one; inside, the overlay of the buffer.
    list_keys-visible :
        (s : BufferingBackend S) (d k : Text) (ks : List Text)
        → IsCoherent s
        → list_keys b order s d ≡ ok ks
        → contains k ks ≡ is_some (visible s d k)
    unfolding list_keys
    list_keys-visible s d k ks c h = elim (Result-cases (b.list_keys s.inner d)) [
      | inr (e, failed) ↦ ground arith
      | inl (inner, listed) ↦ ground (
        arith,
        l.list_keys_ok s.inner d k inner c.inner_IsValid listed,
        contains-collect k inner,
        overlay_keys-lookup d k (order.entries s.buffer) (BTreeSet.collect inner) (view s.inner d k)
            (order.entries_NodupKeys s.buffer c.nodup),
        order.entries_lookup s.buffer (d, k),
      )
    ]

    -- The buffering backend over a lawful backend has the laws, in and out of a batch, over the view
    -- that reads the buffer first.
    pub buffering_laws : Laws (buffering b order) visible IsCoherent
    unfolding buffering
    buffering_laws = record {
      get_ok = λ s d k r h. ground (arith, l.get_ok s.inner d k r);
      put_ok = put_ok;
      put_frame = put_frame;
      put_IsValid = put_IsCoherent;
      batch_ok = λ s es d k. default_put_batch-ok (put_bytes b order) visible put_ok es s d k;
      batch_frame =
          λ s es d k. default_put_batch-frame (put_bytes b order) visible put_frame es s d k;
      batch_IsValid =
          λ s es. default_put_batch-IsValid (put_bytes b order) IsCoherent put_IsCoherent es s;
      delete_ok = λ s d k d' k' h.
          ground
            (arith, lookup-insert (d, k) (d', k') delete s.buffer, l.delete_ok s.inner d k d' k');
      delete_frame = λ s d k d' k' h.
          ground (
            arith,
            lookup-insert (d, k) (d', k') delete s.buffer,
            l.delete_frame s.inner d k d' k',
          );
      delete_IsValid = delete_IsCoherent;
      delete_dict_ok = λ s d d' k' h. ground (
        arith,
        lookup-retain (λ (x : Text × Text). not (text_beq x.0 d)) (d', k') s.buffer,
        l.delete_dict_ok s.inner d d' k',
        text_beq_iff d d',
        text_beq_iff d' d,
      );
      delete_dict_frame = λ s d d' k' h. ground (
        arith,
        lookup-retain (λ (x : Text × Text). not (text_beq x.0 d)) (d', k') s.buffer,
        l.delete_dict_frame s.inner d d' k',
        text_beq_iff d d',
        text_beq_iff d' d,
      );
      delete_dict_IsValid = λ s d c. record {
        inner_IsValid = l.delete_dict_IsValid s.inner d c.inner_IsValid;
        nodup =
            if_keeps NodupKeys (s.batching && not s.poisoned) (retain-NodupKeys _ s.buffer c.nodup)
              c.nodup;
      };
      list_keys_ok = list_keys-visible;
    }
