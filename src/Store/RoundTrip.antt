-- ===== src/Store/RoundTrip.antt =====
-- What reads return after the writes of src/store/store.cpp.
use configraft.Base.{
  ◌+◌, ◌^◌, ◌<◌, ◌≡◌, refl, ap, sym, subst, ◌∙◌, Option, none, some, arith, Int64, inl, inr,
  if◌then◌else◌,
}
use configraft.Base.Bytes.{Bytes, bytes_eq_iff, bytes_eq_refl}
use configraft.Proto.{Kv, key_not_found}
use configraft.LevelDb.{Engine, EngineLaws, Readable}
use configraft.Mvcc.{State, value_record, delete_record, add_record, add_config, version_after}
use configraft.Mvcc.Invariant.{
  IsConsistent, add_record-IsConsistent, add_config-IsConsistent, version_bound,
}
use configraft.Store
use configraft.Store.{Lookup, hit, miss}
use configraft.Store.Reads.{Models, get-Models, get_config-Models}
use configraft.Store.Refine.{
  Done, put_refines, delete_refines, publish_refines, value_record-Follows,
}
use configraft.Store.Write
use configraft.Store.Write.{Written, wrote, not_written}

version_after_positive : (o : Option Kv) → 0 < version_after o
version_after_positive none = omega arith
version_after_positive (some kv) = omega arith

-- The record of a write that returned.
of_wrote : {r r' : Int64} {x y : Kv} → wrote r x ≡ wrote r' y → x ≡ y
of_wrote e = cc

module _ (E : Engine) (laws : EngineLaws E) where
  pub done_record :
      (d : E.Db) (r : E.Db × Written) (s s' : State) (x : Kv) (rev : Int64) (kv : Kv)
      → Done E laws d r s s' x
      → r.1 ≡ wrote rev kv
      → Models E laws r.0 s' × (x ≡ kv)
  done_record d r s s' x rev kv (inl (e, m)) h = (m, of_wrote (sym e ∙ h))
  done_record d r s s' x rev kv (inr (e, m, refused)) h = cc

  module _ (d d' : E.Db) (s : State) (x : Kv) (m : Models E laws d s) (ok : Readable E d)
      (m' : Models E laws d' (add_record s x)) (ok' : Readable E d') where
    get_other : (k : Bytes) → ¬ (k ≡ x.key) → Store.get E d' k ≡ Store.get E d k
    get_other k h =
        rw (get-Models E laws d s m ok k, get-Models E laws d' (add_record s x) m' ok' k)
          (ground (arith, bytes_eq_iff x.key k))

    get_same : Store.get E d' x.key ≡ (if x.deleted then miss key_not_found else hit x)
    get_same =
        rw (get-Models E laws d' (add_record s x) m' ok' x.key)
          (ground (arith, bytes_eq_refl x.key))

  module _ (d d' : E.Db) (s t : State) (x : Kv) (m : Models E laws d s) (ok : Readable E d)
      (m' : Models E laws d' (add_config t x)) (ok' : Readable E d')
      (c' : IsConsistent (add_config t x)) where
    get_config_same :
        0 < x.version → x.version < 2 ^ 63 → Store.get_config E d' x.key x.version ≡ hit x
    get_config_same pos small =
        rw (get_config-Models E laws d' (add_config t x) m' ok' x.key x.version c' pos small)
          (ground (arith, bytes_eq_refl x.key))

    get_config_other :
        IsConsistent s
        → ((k : Bytes) (v : Int64) → t.config k v ≡ s.config k v)
        → (k : Bytes) (v : Int64) → 0 < v
        → v < 2 ^ 63
        → ¬ ((k ≡ x.key) × (v ≡ x.version))
        → Store.get_config E d' k v ≡ Store.get_config E d k v
    get_config_other c kept k v pos small h =
        rw
          (
            get_config-Models E laws d s m ok k v c pos small,
            get_config-Models E laws d' (add_config t x) m' ok' k v c' pos small,
          )
          (ground (arith, bytes_eq_iff x.key k, kept k v))

  module _ (d : E.Db) (s : State) (m : Models E laws d s) (c : IsConsistent s) (ok : Readable E d)
      (h : s.revision + 1 < 2 ^ 63) where
    -- On a readable database that holds a consistent state with revisions left: if Put returns a
    -- revision and the database can still be read, then Get returns the record of Put, which has the
    -- value written, the next revision and the version after the current one of the key, and Get of
    -- any other key returns what it returned before.
    pub get-put :
        (key value : Bytes) (rev : Int64) (kv : Kv)
        → (Write.put E d key value).1 ≡ wrote rev kv
        → Readable E (Write.put E d key value).0
        → (kv ≡ value_record s (s.main key) key value)
          × (Store.get E (Write.put E d key value).0 key ≡ hit kv)
          × ((k : Bytes)
              → ¬ (k ≡ key)
              → Store.get E (Write.put E d key value).0 k ≡ Store.get E d k)
    get-put key value rev kv e ok' =
        let x = value_record s (s.main key) key value in
        let (m', same) =
          done_record d _ s _ x rev kv (put_refines E laws d s m c ok h key value) e in
        (sym same, get_same d _ s x m ok m' ok' ∙ ap hit same, get_other d _ s x m ok m' ok')

    -- On a readable database that holds a consistent state with revisions left: if Delete returns a
    -- revision and the database can still be read, then Get of the key answers KEY_NOT_FOUND, and
    -- Get of any other key returns what it returned before.
    pub get-delete :
        (key : Bytes) (rev : Int64) (kv : Kv)
        → (Write.delete E d key).1 ≡ wrote rev kv
        → Readable E (Write.delete E d key).0
        → (Store.get E (Write.delete E d key).0 key ≡ miss key_not_found)
          × ((k : Bytes) → ¬ (k ≡ key) → Store.get E (Write.delete E d key).0 k ≡ Store.get E d k)
    get-delete key rev kv e ok' =
        let x = delete_record s key in
        let (m', same) = done_record d _ s _ x rev kv (delete_refines E laws d s m c ok h key) e in
        (get_same d _ s x m ok m' ok', get_other d _ s x m ok m' ok')

    -- On a readable database that holds a consistent state with revisions left: if Publish returns a
    -- revision and the database can still be read, then GetConfig returns the published record for
    -- its version, and for every other positive version of the key, and for every positive version
    -- of another key, what it returned before.
    pub get_config-publish :
        (key value : Bytes) (rev : Int64) (kv : Kv)
        → (Write.publish E d key value).1 ≡ wrote rev kv
        → Readable E (Write.publish E d key value).0
        → (Store.get_config E (Write.publish E d key value).0 key kv.version ≡ hit kv)
          × ((k : Bytes) (v : Int64)
              → 0 < v
              → v < 2 ^ 63
              → ¬ ((k ≡ key) × (v ≡ kv.version))
              → Store.get_config E (Write.publish E d key value).0 k v ≡ Store.get_config E d k v)
    get_config-publish key value rev kv e ok' =
        let x = value_record s (s.main key) key value in
        let s' = add_record s x in
        let d' = (Write.publish E d key value).0 in
        let (m', same) =
          done_record d _ s _ x rev kv (publish_refines E laws d s m c ok h key value) e in
        let c' =
          add_config-IsConsistent s' x
            (add_record-IsConsistent s x c (value_record-Follows E laws d s m c ok h key value) h)
            refl in
        (
          subst (λ y. Store.get_config E d' key y.version ≡ hit y) same
              (get_config_same d d' s s' x m ok m' ok' c' (version_after_positive (s.main key))
                (omega (arith, version_bound s key c))),
          λ k v pos small other.
              get_config_other d d' s s' x m ok m' ok' c' c (λ j w. refl) k v pos small
                (λ q. other (q.0, q.1 ∙ ap (λ y. y.version) same)),
        )
