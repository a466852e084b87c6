-- ===== src/Store/RefineMore.antt =====
-- The compound writes beside the versioned map: compare-and-swap, rollback, batches.
use configraft.Base.{
  ◌^◌, ◌<◌, ◌≡◌, refl, sym, ◌∙◌, true, false, ◌||◌, Option, none, some, [], ◌∷◌, ◌==◌, arith, Int64,
  is_negative, inl, inr, Bool-cases,
}
use configraft.Base.Bytes.{Bytes}
use configraft.Proto.{Kv, Code, key_not_found, version_not_found}
use configraft.LevelDb.{Engine, EngineLaws, Readable}
use configraft.Mvcc.{State, visible, swappable, named}
use configraft.Mvcc.Invariant.{IsConsistent}
use configraft.Store
use configraft.Store.{Lookup, hit, miss}
use configraft.Store.Reads.{Models, get-Models, get_config-Models, get_config-latest}
use configraft.Store.Write
use configraft.Store.Write.{
  Written, wrote, not_written, BatchWritten, batch_wrote, batch_failed, commit, kv_ops, revision_op,
}

-- The source's test for a match is that the visible value is the one expected.
pub matches-swappable :
    (o : Option Kv) (expect : Bytes) → Write.matches o expect ≡ swappable o expect
unfolding Write.matches
matches-swappable none [] = refl
matches-swappable none (c ∷ expect) = refl
matches-swappable (some kv) [] = ground arith
matches-swappable (some kv) (c ∷ expect) = ground arith

module _ (E : Engine) (laws : EngineLaws E) (d : E.Db) (s : State) (m : Models E laws d s)
    (c : IsConsistent s) (ok : Readable E d) where
  positive : (v : Int64) → (is_negative v || v == 0) ≡ false → (0 < v) × (v < 2 ^ 63)
  positive v h = ground arith

  named_positive :
      (key : Bytes) (v : Int64) → (is_negative v || v == 0) ≡ false → named s key v ≡ s.config key v
  named_positive key v h = rw h

  named_latest :
      (key : Bytes) (v : Int64)
      → (is_negative v || v == 0) ≡ true
      → named s key v ≡ visible (s.main key)
  named_latest key v h = rw h

  -- What `GetConfig` finds is the record that the version names.
  pub get_config-hit :
      (key : Bytes) (v : Int64) (kv : Kv)
      → named s key v ≡ some kv
      → Store.get_config E d key v ≡ hit kv
  get_config-hit key v kv e = elim (Bool-cases (is_negative v || v == 0)) [
    | inl h ↦
        get_config-latest E laws d s m ok key v h
        ∙ get-Models E laws d s m ok key
        ∙ rw (sym (named_latest key v h) ∙ e)
    | inr h ↦
        get_config-Models E laws d s m ok key v c (positive v h).0 (positive v h).1
        ∙ rw (sym (named_positive key v h) ∙ e)
  ]

  pub get_config-miss :
      (key : Bytes) (v : Int64)
      → named s key v ≡ none
      → (code : Code) × (Store.get_config E d key v ≡ miss code)
  get_config-miss key v e = elim (Bool-cases (is_negative v || v == 0)) [
    | inl h ↦ (
      key_not_found,
      get_config-latest E laws d s m ok key v h
          ∙ get-Models E laws d s m ok key
          ∙ rw (sym (named_latest key v h) ∙ e),
    )
    | inr h ↦ (
      version_not_found,
      get_config-Models E laws d s m ok key v c (positive v h).0 (positive v h).1
          ∙ rw (sym (named_positive key v h) ∙ e),
    )
  ]
