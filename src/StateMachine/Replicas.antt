-- ===== src/StateMachine/Replicas.antt =====
-- What a log leaves behind in a replica of src/raft/state_machine.cpp, and what it broadcasts.
use configraft.Base.{
  ℕ, ◌+◌, ◌^◌, ◌<◌, ◌≡◌, refl, ap, sym, ◌∙◌, true, false, Option, none, some, List, [], ◌∷◌, map,
  arith, Int64, inl, inr,
}
use configraft.Base.Bytes.{Bytes}
use configraft.Proto.{RaftCmd, WatchEvent}
use configraft.Results.{ApplyResult}
use configraft.LevelDb.{Engine, EngineLaws, Op, Readable}
use configraft.Mvcc.{State, Effect, step, cost}
use configraft.Mvcc.Invariant.{IsConsistent, step_revision, step-IsConsistent}
use configraft.Store.Reads.{Models}
use configraft.StoreOps.{make_event, apply_cmd_to_store}
use configraft.StoreOps.Refine.{Applied, apply-step}
use configraft.StateMachine
use configraft.StateMachine.{Machine, LogEntry, Closure}
use configraft.Watch.Hub
use configraft.Watch.Hub.{WatchHub}
use configraft.Watch.Delivery.{broadcasts}

-- The commands of the entries that parse.
abbrev pub commands : (Bytes → Option RaftCmd) → List LogEntry → List RaftCmd
commands parse_cmd [] = []
commands parse_cmd (e ∷ entries) =
    let rest = commands parse_cmd entries in
    elim (parse_cmd e.data_bytes) [ none ↦ rest | some cmd ↦ cmd ∷ rest ]

-- The state and the events of each command, in order.
abbrev pub steps : State → List RaftCmd → State × List (List WatchEvent)
steps s [] = (s, [])
steps s (cmd ∷ cmds) =
    let e = step s cmd in
    let (last, events) = steps e.state cmds in (last, map make_event e.written ∷ events)

abbrev pub total_cost : List RaftCmd → ℕ
total_cost [] = 0
total_cost (cmd ∷ cmds) = cost cmd + total_cost cmds

-- A log keeps the invariant of the map.
pub steps-IsConsistent :
    (s : State) (cmds : List RaftCmd)
    → IsConsistent s
    → s.revision + total_cost cmds < 2 ^ 63
    → IsConsistent (steps s cmds).0
steps-IsConsistent s [] c h = c
steps-IsConsistent s (cmd ∷ cmds) c h =
    steps-IsConsistent (step s cmd).state cmds (step-IsConsistent s cmd c (omega arith))
      (omega (arith, step_revision s cmd))

opposite_tests : ¬ (true ≡ false)
opposite_tests e = cc e

module _ (E : Engine) (laws : EngineLaws E) where
  -- On no database that the commands lead through does a read or a write fail.
  abbrev pub Healthy : E.Db → List RaftCmd → Type 0
  Healthy d [] = Unit {0}
  Healthy d (cmd ∷ cmds) =
      Readable E d
      × ((batch : List Op) → (E.write d batch).1 ≡ true)
      × Healthy (apply_cmd_to_store E d cmd).0 cmds

  no_refusal :
      (d : E.Db) (s : State) (r : E.Db × ApplyResult) (e : Effect)
      → ((batch : List Op) → (E.write d batch).1 ≡ true)
      → Applied E laws d s r e
      → (r.1.events ≡ map make_event e.written) × Models E laws r.0 e.state
  no_refusal d s r e w (inl (code, events, m)) = (events, m)
  no_refusal d s r e w (inr (code, events, m, refused)) =
      absurd (opposite_tests (sym (w refused.0) ∙ ap (λ x. x.1) refused.1))

  -- What the machine holds after one command.
  apply_cmd-Models :
      (d : E.Db) (s : State) (cmd : RaftCmd) (cmds : List RaftCmd)
      → Models E laws d s
      → IsConsistent s
      → Healthy d (cmd ∷ cmds)
      → s.revision + cost cmd < 2 ^ 63
      → ((apply_cmd_to_store E d cmd).1.events ≡ map make_event (step s cmd).written)
        × Models E laws (apply_cmd_to_store E d cmd).0 (step s cmd).state
  apply_cmd-Models d s cmd cmds m c (readable, w, rest) h =
      no_refusal d s (apply_cmd_to_store E d cmd) (step s cmd) w
        (apply-step E laws d s m c readable cmd h)

  -- The machine after one command, whoever submitted it.
  abbrev run_cmd : Machine E → RaftCmd → Machine E
  run_cmd sm cmd =
      let (store, result) = apply_cmd_to_store E sm.store cmd in
      record sm { store = store; hub = StateMachine.broadcast_to sm.hub result }

  run_cmds : Machine E → List RaftCmd → Machine E
  run_cmds sm [] = sm
  run_cmds sm (cmd ∷ cmds) = run_cmds (run_cmd sm cmd) cmds

  abbrev run_option : Machine E → Option RaftCmd → Machine E
  run_option sm none = sm
  run_option sm (some cmd) = run_cmd sm cmd

  run_cmds-commands :
      (sm : Machine E) (o : Option RaftCmd) (rest : List RaftCmd)
      → run_cmds sm (elim o [ none ↦ rest | some cmd ↦ cmd ∷ rest ])
        ≡ run_cmds (run_option sm o) rest
  unfolding run_cmds
  run_cmds-commands sm none rest = refl
  run_cmds-commands sm (some cmd) rest = refl

  apply_parsed-run_option :
      (parse_cmd : Bytes → Option RaftCmd) (sm : Machine E) (closure : Option Closure)
      (o : Option RaftCmd)
      → (StateMachine.apply_parsed E parse_cmd sm closure o).0 ≡ run_option sm o
  unfolding StateMachine.apply_parsed
  apply_parsed-run_option parse_cmd sm closure none = refl
  apply_parsed-run_option parse_cmd sm closure (some cmd) = refl

  on_apply-commands :
      (parse_cmd : Bytes → Option RaftCmd) (sm : Machine E) (entries : List LogEntry)
      → (StateMachine.on_apply E parse_cmd sm entries).0 ≡ run_cmds sm (commands parse_cmd entries)
  unfolding StateMachine.on_apply StateMachine.apply_entry run_cmds
  on_apply-commands parse_cmd sm [] = refl
  on_apply-commands parse_cmd sm (e ∷ entries) =
      ap (λ m. (StateMachine.on_apply E parse_cmd m entries).0)
        (apply_parsed-run_option parse_cmd sm e.done (parse_cmd e.data_bytes))
      ∙ on_apply-commands parse_cmd (run_option sm (parse_cmd e.data_bytes)) entries
      ∙ sym (run_cmds-commands sm (parse_cmd e.data_bytes) (commands parse_cmd entries))

  abbrev pub machine : E.Db → WatchHub → Int64 → Machine E
  machine d hub term = record { store = d; hub = some hub; leader_term = term }

  broadcast_to-broadcast :
      (hub : WatchHub) (result : ApplyResult) (events : List WatchEvent)
      → result.events ≡ events
      → StateMachine.broadcast_to (some hub) result ≡ some (Hub.broadcast hub events)
  unfolding StateMachine.broadcast_to Hub.broadcast
  broadcast_to-broadcast hub result [] h = rw h
  broadcast_to-broadcast hub result (e ∷ events) h = rw h

  run_cmds-steps :
      (d : E.Db) (hub : WatchHub) (term : Int64) (s : State) (cmds : List RaftCmd)
      → Models E laws d s
      → IsConsistent s
      → Healthy d cmds
      → s.revision + total_cost cmds < 2 ^ 63
      → Models E laws (run_cmds (machine d hub term) cmds).store (steps s cmds).0
        × ((run_cmds (machine d hub term) cmds).hub ≡ some (broadcasts hub (steps s cmds).1))
  unfolding run_cmds broadcasts
  run_cmds-steps d hub term s [] m c ok h = (m, refl)
  run_cmds-steps d hub term s (cmd ∷ cmds) m c (readable, w, ok) h =
      let r = apply_cmd_to_store E d cmd in
      let e = step s cmd in
      let events = map make_event e.written in
      let (sent, m') = apply_cmd-Models d s cmd cmds m c (readable, w, ok) (omega arith) in
      rw (run_cmds, broadcast_to-broadcast hub r.1 events sent)
        (run_cmds-steps r.0 (Hub.broadcast hub events) term e.state cmds m'
          (step-IsConsistent s cmd c (omega arith)) ok (omega (arith, step_revision s cmd)))

  -- A machine whose store holds a consistent state applies a batch of log entries, with revisions
  -- below 2 ^ 63 and no failure of LevelDB on the way. Then the store holds the state that the
  -- commands of the entries lead to, in their order, and the hub has broadcast the events of each
  -- command in that order. Entries that do not parse change nothing, and neither does it matter
  -- which entries carry a closure: every replica gets the same state and the same events.
  pub on_apply-steps :
      (parse_cmd : Bytes → Option RaftCmd) (d : E.Db) (hub : WatchHub) (term : Int64) (s : State)
      (entries : List LogEntry)
      → let cmds = commands parse_cmd entries in
        Models E laws d s
        → IsConsistent s
        → Healthy d cmds
        → s.revision + total_cost cmds < 2 ^ 63
        → let after = (StateMachine.on_apply E parse_cmd (machine d hub term) entries).0 in
          Models E laws after.store (steps s cmds).0
          × (after.hub ≡ some (broadcasts hub (steps s cmds).1))
  on_apply-steps parse_cmd d hub term s entries m c ok h =
      rw (on_apply-commands parse_cmd (machine d hub term) entries)
        (run_cmds-steps d hub term s (commands parse_cmd entries) m c ok h)
