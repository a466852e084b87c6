-- ===== src/Server/Interleaved.antt =====
-- The store of a server whose compaction thread runs beside the commands.
use configraft.Base.{
  ℕ, ◌+◌, ◌^◌, ◌≤◌, ◌<◌, ◌≡◌, refl, subst, sym, Bool, true, false, ◌||◌, some, List, [], ◌∷◌, arith,
  inl, inr, Bool-cases, if◌then◌else◌, ◌⊎◌,
}
use configraft.LevelDb.{Engine, EngineLaws, Op, Readable}
use configraft.Mvcc.{State, step}
use configraft.Mvcc.Compact.{compact}
use configraft.Mvcc.Invariant.{IsConsistent, step_revision, step-IsConsistent}
use configraft.Proto.{RaftCmd}
use configraft.Server.{keep_versions}
use configraft.Server.Cleaning.{
  Round, Cleaner, ended, waiting, apply_all, after_wait, compaction_loop,
}
use configraft.StateMachine.Replicas.{total_cost}
use configraft.Store.Compaction.Refined.{compaction-compact, compaction-IsWritten}
use configraft.Store.Published.{apply_cmd-Keeps}
use configraft.Store.Refine.{Refused}
use configraft.Store.Reads.{Models}
use configraft.Store.Scan
use configraft.StoreOps.{apply_cmd_to_store}
use configraft.StoreOps.Refine.{apply-step}

abbrev pub spending : List Round → ℕ
spending [] = 0
spending (r ∷ rounds) = total_cost r.commands + spending rounds

-- Whether the flag is set when one of the waits ends.
abbrev pub is_stopped : List Round → Bool
is_stopped [] = false
is_stopped (r ∷ rounds) = r.stop || is_stopped rounds

module _ (E : Engine) (laws : EngineLaws E) where
  abbrev applied : E.Db → RaftCmd → E.Db
  applied d cmd = (apply_cmd_to_store E d cmd).0

  -- A list of commands, applied one after the other: each takes the map on by its step, unless LevelDB
  -- refuses its batch, and then the map stays.
  pub data Applies : E.Db → State → List RaftCmd → E.Db → State → Type 0 where
    no_more : (d : E.Db) (s : State) → Applies d s [] d s
    takes :
        (d d' : E.Db) (s s' : State) (cmd : RaftCmd) (cmds : List RaftCmd)
        → Applies (applied d cmd) (step s cmd).state cmds d' s'
        → Applies d s (cmd ∷ cmds) d' s'
    refuses :
        (d d' : E.Db) (s s' : State) (cmd : RaftCmd) (cmds : List RaftCmd)
        → Refused E laws d (applied d cmd)
        → Applies (applied d cmd) s cmds d' s'
        → Applies d s (cmd ∷ cmds) d' s'

  -- One compaction, which keeps ten records of every key, or is refused.
  abbrev pub Compacts : E.Db → State → E.Db → State → Type 0
  Compacts d s d' s' = (s' ≡ compact 10 s) ⊎ (s' ≡ s) × Refused E laws d d'

  -- The rounds of the thread: the commands of each wait, then a compaction, until a wait ends with the
  -- flag.
  pub data Cleans : E.Db → State → List Round → E.Db → State → Type 0 where
    waits : (d : E.Db) (s : State) → Cleans d s [] d s
    stops :
        (d d' : E.Db) (s s' : State) (r : Round) (rounds : List Round)
        → r.stop ≡ true
        → Applies d s r.commands d' s'
        → Cleans d s (r ∷ rounds) d' s'
    cleans :
        (d d1 d2 d' : E.Db) (s s1 s2 s' : State) (r : Round) (rounds : List Round)
        → r.stop ≡ false
        → Applies d s r.commands d1 s1
        → Compacts d1 s1 d2 s2
        → Cleans d2 s2 rounds d' s'
        → Cleans d s (r ∷ rounds) d' s'

  -- A readable database that holds a consistent state.
  abbrev pub Holds : E.Db → State → Type 0
  Holds d s = Models E laws d s × IsConsistent s × Readable E d

  -- The thread has ended, or waits if the flag was never set, with a database that its rounds lead to.
  abbrev pub Runs : E.Db → State → List Round → Cleaner E → Type 0
  Runs d s rounds out =
      (d' : E.Db) × (s' : State) × Cleans d s rounds d' s'
      × (out ≡ (if is_stopped rounds then ended d' else waiting d'))
      × Holds d' s'
      × (s'.revision ≤ s.revision + spending rounds)

module _ (E : Engine) (laws : EngineLaws E)
    (steady : (d : E.Db) (batch : List Op) → Readable E d → Readable E (E.write d batch).0) where
  apply_cmd-Readable :
      (d : E.Db) (cmd : RaftCmd) → Readable E d → Readable E (apply_cmd_to_store E d cmd).0
  apply_cmd-Readable d cmd r = elim (apply_cmd-Keeps E (λ j raw. Unit {0}) (λ kv h. tt) d cmd) [
    | inl same ↦ subst (Readable E) (sym same) r
    | inr (batch, clean, same) ↦ subst (Readable E) (sym same) (steady d batch r)
  ]

  apply_all-Applies :
      (d : E.Db) (s : State) (cmds : List RaftCmd)
      → s.revision + total_cost cmds < 2 ^ 63
      → Holds E laws d s
      → (s' : State) × Applies E laws d s cmds (apply_all E d cmds) s'
        × Holds E laws (apply_all E d cmds) s'
        × (s'.revision ≤ s.revision + total_cost cmds)
  unfolding apply_all
  apply_all-Applies d s [] h holds = (s, no_more d s, holds, omega arith)
  apply_all-Applies d s (cmd ∷ cmds) h (m, c, r) =
      let r' = apply_cmd-Readable d cmd r in
      elim (apply-step E laws d s m c r cmd (omega arith)) [
        | inl (code, events, m') ↦
            let top = step_revision s cmd in
            let c' = step-IsConsistent s cmd c (omega arith) in
            let (s', a, holds, le) =
              apply_all-Applies (applied E laws d cmd) (step s cmd).state cmds (omega arith)
                (m', c', r') in
            (s', takes d _ s s' cmd cmds a, holds, omega arith)
        | inr (code, events, m', refused) ↦
            let (s', a, holds, le) =
              apply_all-Applies (applied E laws d cmd) s cmds (omega arith) (m', c, r') in
            (s', refuses d _ s s' cmd cmds refused a, holds, omega arith)
      ]

  compaction-Compacts :
      (d : E.Db) (s : State)
      → Holds E laws d s
      → (r : E.Db × ℕ) × (s' : State) × (Scan.compaction E d keep_versions ≡ some r)
        × Compacts E laws d s r.0 s'
        × Holds E laws r.0 s'
        × (s'.revision ≡ s.revision)
  unfolding compact
  compaction-Compacts d s (m, c, r) =
      let (d', removed, e, outcome, c') = compaction-compact E laws d s m c r keep_versions in
      let r' : Readable E d' = elim (compaction-IsWritten E d keep_versions (d', removed) e) [
        | inl same ↦ subst (Readable E) (sym same) r
        | inr (batch, same) ↦ subst (Readable E) (sym same) (steady d batch r)
      ] in
      elim outcome [
        | inl m' ↦ ((d', removed), compact 10 s, e, inl refl, (m', c', r'), refl)
        | inr (m', refused) ↦ ((d', removed), s, e, inr (refl, refused), (m', c, r'), refl)
      ]

  after_wait-compaction :
      (d : E.Db) (stop : Bool) (next : E.Db → Cleaner E) (r : E.Db × ℕ) (out : Cleaner E)
      → stop ≡ false
      → Scan.compaction E d keep_versions ≡ some r
      → next r.0 ≡ out
      → after_wait E d stop next ≡ out
  unfolding after_wait
  after_wait-compaction d stop next r out go e rest = rw (go, after_wait, e) rest

  loop-Runs :
      (d : E.Db) (s : State) (rounds : List Round)
      → s.revision + spending rounds < 2 ^ 63
      → Holds E laws d s
      → Runs E laws d s rounds (compaction_loop E false d rounds)
  unfolding compaction_loop after_wait
  loop-Runs d s [] h holds = (d, s, waits d s, refl, holds, omega arith)
  loop-Runs d s (r ∷ rounds) h holds =
      let (s1, a, holds1, le) = apply_all-Applies d s r.commands (omega arith) holds in
      elim (Bool-cases r.stop) [
        | inl stop ↦ (
          apply_all E d r.commands,
          s1,
          stops d _ s s1 r rounds stop a,
          rw stop refl,
          holds1,
          omega arith,
        )
        | inr go ↦
            let (out, s2, e, compacts, holds2, same) = compaction-Compacts _ s1 holds1 in
            let (d', s', rest, end, holds', le') = loop-Runs out.0 s2 rounds (omega arith) holds2 in
            (
              d',
              s',
              cleans d _ out.0 d' s s1 s2 s' r rounds go a compacts rest,
              after_wait-compaction _ r.stop _ out _ go e (rw go end),
              holds',
              omega arith,
            )
      ]

  module _ (d : E.Db) (s : State) (m : Models E laws d s) (c : IsConsistent s)
      (readable : Readable E d) where
    -- From a readable database that holds a consistent state, if writes keep it readable and the
    -- revisions stay below 2 ^ 63: the thread does not throw; it has ended if the flag was set when
    -- one of its waits ended, and otherwise waits. Its database is readable and holds the consistent
    -- state that these rounds lead to: every command that the node applied in a wait takes the map
    -- on by its step, and every compaction between two waits leaves the ten newest records of each
    -- key, but for those whose batch LevelDB refused, in the order in which they came. No more
    -- revisions were taken than the commands cost.
    pub compaction_loop-Runs :
        (rounds : List Round)
        → s.revision + spending rounds < 2 ^ 63
        → Runs E laws d s rounds (compaction_loop E false d rounds)
    compaction_loop-Runs rounds h = loop-Runs d s rounds h (m, c, readable)

    -- From such a database the thread ends once the destructor has set the flag before one of the
    -- waits ends, whatever commands the node applies.
    pub compaction_loop-ended :
        (rounds : List Round)
        → s.revision + spending rounds < 2 ^ 63
        → is_stopped rounds ≡ true
        → (d' : E.Db) × (compaction_loop E false d rounds ≡ ended d')
    compaction_loop-ended rounds h e =
        let (d', s', run, end, holds, le) = compaction_loop-Runs rounds h in (d', cc (rw e at end))
