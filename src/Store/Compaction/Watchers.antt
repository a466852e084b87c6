-- ===== src/Store/Compaction/Watchers.antt =====
-- What a compaction means for watchers that resume.
use configraft.Base.{
  ℕ, ◌+◌, ◌^◌, ◌≤◌, ◌<◌, ◌≡◌, refl, subst, ◌∙◌, false, some, List, [], ◌∷◌, arith, if◌then◌else◌,
  Int32, leb, ltb, Bool-cases, inl, inr,
}
use configraft.Base.Bytes.{Bytes}
use configraft.LevelDb.{Engine, EngineLaws, Readable}
use configraft.Mvcc.{State}
use configraft.Mvcc.Compact.{compact, compact-IsConsistent, count, kept, dropped, last_revision}
use configraft.Mvcc.Invariant.{IsConsistent}
use configraft.Proto.{Kv}
use configraft.Store
use configraft.Store.Compaction.Discards.{last_revision_top}
use configraft.Store.Compaction.Refined.{at_least_one, compaction-compact}
use configraft.Store.History.{since}
use configraft.Store.Reads.{Models, compact_rev-Models}
use configraft.Store.Replay.{replay_answer, replay_events-make_event}
use configraft.Store.Scan
use configraft.Store.Scan.{Replay, replayed, compacted}

module _ (E : Engine) where
  -- Behind the boundary the history is whole.
  since-kept :
      (n top from : ℕ) (l : List Kv)
      → last_revision top (dropped n l) ≤ from
      → since E from (kept n l) ≡ since E from l
  unfolding kept dropped last_revision
  since-kept n top from [] h = refl
  since-kept n top from (kv ∷ l) h = elim (Bool-cases (leb n (count kv.key l))) [
    | inl g ↦
        let below : last_revision top (kv ∷ dropped n l) ≤ from = rw g at h in
        rw g (ground (arith, since-kept n top from l))
    | inr g ↦
        let below : last_revision top (dropped n l) ≤ from = rw g at h in
        rw g (ground (arith, since-kept n top from l below))
  ]

module _ (E : Engine) (laws : EngineLaws E) (d : E.Db) (s : State) (m : Models E laws d s)
    (c : IsConsistent s) (readable : Readable E d) where
  module _ (from current : ℕ) (key : Bytes) (max_events : ℕ) where
    -- The answer after a compaction next to the one before it.
    abbrev Answers : E.Db → Type 0
    Answers d' = Scan.replay_events E d' from current key max_events ≡ (
        if ltb from (Store.compact_rev E d')
        then compacted
        else Scan.replay_events E d from current key max_events)

    module _ (hf : from + 1 < 2 ^ 63) (hc : current < 2 ^ 63) (h0 : 0 < max_events)
        (hm : max_events < 2 ^ 31) (d' : E.Db) (readable' : Readable E d') where
      before :
          Scan.replay_events E d from current key max_events
          ≡ replay_answer E laws d s m c readable from current key max_events
      before =
          replay_events-make_event E laws d s m c readable from current key max_events hf hc h0 hm

      compacted-Answers : (n : ℕ) → Models E laws d' (compact n s) → Answers d'
      unfolding compact
      compacted-Answers n m' =
          let after =
            replay_events-make_event E laws d' (compact n s) m' (compact-IsConsistent n s c)
              readable' from current key max_events hf hc h0 hm in
          let top = last_revision s.compacted (dropped n s.history) in
          after
          ∙ (rw (compact_rev-Models E laws d' (compact n s) m' readable', before)
              (elim (Bool-cases (ltb from top)) [
                | inl h ↦ rw h refl
                | inr h ↦
                    let whole = since-kept E n s.compacted from s.history (ground arith) in
                    let old : ltb from s.compacted ≡ false =
                      ground (arith, last_revision_top s.compacted (dropped n s.history)) in
                    rw (h, whole, old) refl
              ]))

      refused-Answers : Models E laws d' s → Answers d'
      refused-Answers m' =
          let after =
            replay_events-make_event E laws d' s m' c readable' from current key max_events hf hc h0
              hm in
          after
          ∙ (rw (compact_rev-Models E laws d' s m' readable', before)
              (elim (Bool-cases (ltb from s.compacted)) [ inl h ↦ rw h refl | inr h ↦ rw h refl ]))

  -- After a compaction, on a readable database, a watcher that resumes is answered COMPACTED if it has
  -- seen less than the new boundary, and is otherwise replayed the same events as before: what the
  -- compaction takes away is missed by nobody who is not told so.
  pub replay_events-compaction :
      (from current : ℕ) (key : Bytes) (max_events : ℕ)
      → from + 1 < 2 ^ 63
      → current < 2 ^ 63
      → 0 < max_events
      → max_events < 2 ^ 31
      → (keep_versions : Int32) (d' : E.Db) (removed : ℕ)
      → Scan.compaction E d keep_versions ≡ some (d', removed)
      → Readable E d'
      → Scan.replay_events E d' from current key max_events ≡ (
          if ltb from (Store.compact_rev E d')
          then compacted
          else Scan.replay_events E d from current key max_events)
  replay_events-compaction from current key max_events hf hc h0 hm keep_versions d' removed e r =
      let (after_d, removeafter_d, found, outcome, c') =
        compaction-compact E laws d s m c readable keep_versions in
      let same : after_d ≡ d' = cc (e, found) in
      elim outcome [
        | inl m' ↦
            compacted-Answers from current key max_events hf hc h0 hm d' r
              (at_least_one keep_versions)
              (subst (λ x. Models E laws x (compact (at_least_one keep_versions) s)) same m')
        | inr (m', refused) ↦
            refused-Answers from current key max_events hf hc h0 hm d' r
              (subst (λ x. Models E laws x s) same m')
      ]
