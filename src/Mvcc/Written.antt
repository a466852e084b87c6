-- ===== src/Mvcc/Written.antt =====
-- What commands add to the history of the versioned map.
use configraft.Base.{
  ℕ, ◌+◌, ◌≤◌, ◌<◌, ◌≡◌, refl, ap, sym, ◌∙◌, Bool, true, false, Option, none, some, List, [], ◌∷◌,
  ◌++◌, All, arith, append_assoc, append-nil,
}
use configraft.Base.Bytes.{Bytes}
use configraft.Proto.{Kv, RaftCmd, put, delete, cas, publish, rollback, batch_put, unset}
use configraft.Mvcc.{
  State, step, write_all, value_record, add_record, swap_value, swappable, republish, named,
}

-- The history grows by these records, whose revisions are new.
abbrev pub Grows : State → List Kv → State → Type 0
Grows s l s' =
    (s'.history ≡ s.history ++ l)
    × All (λ kv. s.revision < kv.revision) l
    × (s.revision ≤ s'.revision)

All-above :
    (r r' : ℕ) (l : List Kv)
    → r ≤ r'
    → All (λ kv. r' < kv.revision) l
    → All (λ kv. r < kv.revision) l
All-above r r' [] h a = tt
All-above r r' (x ∷ l) h (p, a) = (omega arith, All-above r r' l h a)

All-join :
    (r : ℕ) (l m : List Kv)
    → All (λ kv. r < kv.revision) l
    → All (λ kv. r < kv.revision) m
    → All (λ kv. r < kv.revision) (l ++ m)
All-join r [] m a b = b
All-join r (x ∷ l) m (p, a) b = (p, All-join r l m a b)

Grows-nothing : (s : State) → Grows s [] s
Grows-nothing s = (sym (append-nil s.history), tt, omega arith)

Grows-join : (s s1 s2 : State) (l m : List Kv) → Grows s l s1 → Grows s1 m s2 → Grows s (l ++ m) s2
Grows-join s s1 s2 l m (h, a, le) (h', a', le') = (
  h' ∙ ap (λ x. x ++ m) h ∙ append_assoc s.history l m,
  All-join s.revision l m a (All-above s.revision s1.revision m le a'),
  omega arith,
)

write_all-Grows :
    (base : Bytes → Option Kv) (s : State) (kvs : List (Bytes × Bytes))
    → Grows s (write_all base s kvs).1 (write_all base s kvs).0
unfolding write_all
write_all-Grows base s [] = Grows-nothing s
write_all-Grows base s ((key, value) ∷ kvs) =
    let kv = value_record s (base key) key value in
    Grows-join s (add_record s kv) (write_all base (add_record s kv) kvs).0 (kv ∷ []) _
      (refl, (omega arith, tt), omega arith) (write_all-Grows base (add_record s kv) kvs)

swap-Grows :
    (s : State) (kv : Kv) (go : Bool)
    → kv.revision ≡ s.revision + 1
    → Grows s (swap_value s kv go).written (swap_value s kv go).state
swap-Grows s kv true h = (refl, (omega arith, tt), omega arith)
swap-Grows s kv false h = Grows-nothing s

republish-Grows :
    (s : State) (key : Bytes) (target : Option Kv)
    → Grows s (republish s key target).written (republish s key target).state
republish-Grows s key none = Grows-nothing s
republish-Grows s key (some target) = (refl, (omega arith, tt), omega arith)

step-Grows : (s : State) (cmd : RaftCmd) → Grows s (step s cmd).written (step s cmd).state
unfolding step
step-Grows s (put key value) = (refl, (omega arith, tt), omega arith)
step-Grows s (delete key) = (refl, (omega arith, tt), omega arith)
step-Grows s (cas key expect value) =
    swap-Grows s (value_record s (s.main key) key value) (swappable (s.main key) expect) refl
step-Grows s (publish key value) = (refl, (omega arith, tt), omega arith)
step-Grows s (rollback key target_version) = republish-Grows s key (named s key target_version)
step-Grows s (batch_put puts) = write_all-Grows s.main s puts
step-Grows s unset = Grows-nothing s

-- The state that commands lead to, and the records that they write.
abbrev pub state_after : State → List RaftCmd → State
state_after s [] = s
state_after s (cmd ∷ cmds) = state_after (step s cmd).state cmds

abbrev pub written_by : State → List RaftCmd → List Kv
written_by s [] = []
written_by s (cmd ∷ cmds) = (step s cmd).written ++ written_by (step s cmd).state cmds

pub written_by-Grows :
    (s : State) (cmds : List RaftCmd) → Grows s (written_by s cmds) (state_after s cmds)
written_by-Grows s [] = Grows-nothing s
written_by-Grows s (cmd ∷ cmds) =
    Grows-join s (step s cmd).state (state_after (step s cmd).state cmds) (step s cmd).written _
      (step-Grows s cmd) (written_by-Grows (step s cmd).state cmds)
