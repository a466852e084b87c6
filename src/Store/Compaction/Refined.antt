-- ===== src/Store/Compaction/Refined.antt =====
-- Compaction next to its specification.
use mathlib.Core.Option
use configraft.Base.{
  ℕ, ◌≡◌, refl, subst, true, false, Bool, ◌||◌, ◌==◌, Option, none, some, List, [], ◌∷◌, ◌++◌,
  arith, if◌then◌else◌, Int64, Int32, Bool-cases, ◌⊎◌, inl, inr, is_negative32,
}
use configraft.StoreKey.{compact_rev_key, encode_uint64}
use configraft.LevelDb.{Engine, EngineLaws, Op, after, Readable}
use configraft.Mvcc.{State}
use configraft.Mvcc.Compact.{compact, compact-IsConsistent, last_revision}
use configraft.Mvcc.Invariant.{IsConsistent}
use configraft.Store.Compaction.{gather, collected}
use configraft.Store.Compaction.Boundary.{groups_attained, groups_none}
use configraft.Store.Compaction.Exact.{
  deletes, lost, boundary, after_deletes-Represents, after_batch-Represents,
}
use configraft.Store.Contents.{Represents}
use configraft.Store.Reads.{Models, compact_rev-Models}
use configraft.Store.Refine.{Refused, Models-write_done, Models-write_refused}
use configraft.Store.Scan
use configraft.Store.Scan.{Groups, drop_groups}

-- The number of versions that stay: `keep_versions`, or 1 if that is not positive.
abbrev pub at_least_one : Int32 → ℕ
at_least_one keep_versions =
    if is_negative32 keep_versions || keep_versions == 0 then 1 else keep_versions

module _ (E : Engine) (laws : EngineLaws E) (d : E.Db) (s : State) (m : Models E laws d s)
    (c : IsConsistent s) (readable : Readable E d) (n : ℕ) where
  -- The database holds the compacted state, or LevelDB refused the batch and it holds the old one.
  abbrev pub Compacts : E.Db → Type 0
  Compacts d' = Models E laws d' (compact n s) ⊎ Models E laws d' s × Refused E laws d d'

  no_boundary : (deletes s c n).0 ≡ [] → (deletes s c n).1 ≡ 0
  no_boundary idle = elim (groups_attained n (gather s.history []) 0) [
    | inl e ↦ e
    | inr (k, g) ↦ absurd (cc (idle, g))
  ]

  same_boundary : (deletes s c n).1 ≡ 0 → s.compacted ≡ last_revision s.compacted (lost s c n)
  same_boundary e = ground (arith, boundary s c n, c.bounded, c.collected)

  nothing_lost : (deletes s c n).2 ≡ 0 → Models E laws d (compact n s)
  unfolding compact
  nothing_lost e =
      let idle = groups_none n (gather s.history []) 0 e in
      subst (λ r. Represents E (laws.find d) (record (compact n s) { compacted = r }))
        (same_boundary (no_boundary idle))
        (subst
          (λ batch.
            Represents E (λ j. after batch j (laws.find d j))
              (record (compact n s) { compacted = s.compacted }))
          idle (after_deletes-Represents s c n E laws d m))

  write-Compacts :
      (top : ℕ) (w : E.Db × Bool)
      → top ≡ last_revision s.compacted (lost s c n)
      → E.write d ((deletes s c n).0 ++ (Op.put compact_rev_key (encode_uint64 top) ∷ [])) ≡ w
      → Compacts w.0
  write-Compacts top (d', true) e w = inl (
      Models-write_done E laws d d' _ (compact n s) w
        (after_batch-Represents s c n E laws d m top e))
  write-Compacts top (d', false) e w = inr (Models-write_refused E laws d d' _ s w m, (_, w))

  drop_versions-Compacts : Compacts (Scan.drop_versions E d (deletes s c n)).0
  unfolding Scan.drop_versions
  drop_versions-Compacts =
      rw (compact_rev-Models E laws d s m readable) (elim (Bool-cases ((deletes s c n).2 == 0)) [
        | inl h ↦ rw h (inl (nothing_lost (ground arith)))
        | inr h ↦ rw h (write-Compacts _ (E.write d _) (boundary s c n) refl)
      ])

module _ (E : Engine) (laws : EngineLaws E) (d : E.Db) (s : State) (m : Models E laws d s)
    (c : IsConsistent s) (readable : Readable E d) where
  -- On a readable database that holds a consistent state, Compaction returns without an exception,
  -- whatever the number of versions to keep. Then the database holds the compacted state: of every
  -- key exactly the newest records stay in the history, that many of them and at least one; for the
  -- keys and versions of those that went there are no published records any more; the boundary is the
  -- greatest revision that went, unless it was greater before; all else is as before. Or LevelDB
  -- refused the batch and the database holds the old state. The compacted state is consistent.
  pub compaction-compact :
      (keep_versions : Int32)
      → (d' : E.Db) × (removed : ℕ) × (Scan.compaction E d keep_versions ≡ some (d', removed))
        × (Models E laws d' (compact (at_least_one keep_versions) s)
            ⊎ Models E laws d' s × Refused E laws d d')
        × IsConsistent (compact (at_least_one keep_versions) s)
  unfolding Scan.compaction
  compaction-compact keep_versions =
      let n = at_least_one keep_versions in
      let out = Scan.drop_versions E d (deletes s c n) in
      (
        out.0,
        out.1,
        rw (collected E laws d s m c) refl,
        drop_versions-Compacts E laws d s m c readable n,
        compact-IsConsistent n s c,
      )

module _ (E : Engine) (d : E.Db) where
  -- `d'` is `d`, or what a batch left of it.
  abbrev pub IsWritten : E.Db → Type 0
  IsWritten d' = (d' ≡ d) ⊎ ((batch : List Op) × (d' ≡ (E.write d batch).0))

  drop_versions-IsWritten :
      (dropped : List Op × Int64 × ℕ) → IsWritten (Scan.drop_versions E d dropped).0
  unfolding Scan.drop_versions
  drop_versions-IsWritten (batch, top, removed) = elim (Bool-cases (removed == 0)) [
    | inl h ↦ rw h (inl refl)
    | inr h ↦ rw h (inr (_, refl))
  ]

  dropped-IsWritten :
      (o : Option Groups) (n : ℕ) (r : E.Db × ℕ)
      → Option.map (λ groups. Scan.drop_versions E d (drop_groups n groups 0)) o ≡ some r
      → IsWritten r.0
  dropped-IsWritten none n r e = cc e
  dropped-IsWritten (some groups) n r e =
      let same : Scan.drop_versions E d (drop_groups n groups 0) ≡ r = cc e in
      subst (λ x. IsWritten x.0) same (drop_versions-IsWritten (drop_groups n groups 0))

  pub compaction-IsWritten :
      (keep_versions : Int32) (r : E.Db × ℕ)
      → Scan.compaction E d keep_versions ≡ some r
      → IsWritten r.0
  unfolding Scan.compaction
  compaction-IsWritten keep_versions r e = dropped-IsWritten _ (at_least_one keep_versions) r e
