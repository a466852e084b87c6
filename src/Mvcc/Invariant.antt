-- ===== src/Mvcc/Invariant.antt =====
-- The invariant of the versioned map, under its operations.
use configraft.Base.{
  ℕ, ◌+◌, ◌^◌, ◌≤◌, ◌<◌, ◌≡◌, refl, Bool, true, false, some, List, [], ◌∷◌, ◌++◌, All, arith, Int64,
  none, Option, length,
}
use configraft.Base.Bytes.{Bytes, bytes_eq_iff}
use configraft.Proto.{Kv, RaftCmd, put, delete, cas, publish, rollback, batch_put, unset}
use configraft.Mvcc.{
  State, value_record, delete_record, version_after, add_record, add_config, write_all,
  publish_value, swap_value, republish, swappable, named, step, cost,
}

-- Revisions grow strictly, and all are above `r`.
abbrev pub Ascending : ℕ → List Kv → Type 0
Ascending r [] = Unit {0}
Ascending r (kv ∷ l) = (r < kv.revision) × Ascending kv.revision l

-- The record of a key: it names the key, and its version and revision do not pass the counter.
pub record Fits (top : ℕ) (k : Bytes) (kv : Kv) : Type 0 where
  pub names : kv.key ≡ k
  pub version_fits : kv.version ≤ top
  pub revision_fits : kv.revision ≤ top

pub record IsConsistent (s : State) : Type 0 where
  pub bounded : s.revision < 2 ^ 63
  pub current : (k : Bytes) (kv : Kv) → s.main k ≡ some kv → Fits s.revision k kv
  pub ascending : Ascending 0 s.history
  pub recorded : All (λ kv. kv.revision ≤ s.revision) s.history
  pub versioned : All (λ kv. kv.version ≤ s.revision) s.history
  pub published :
      (k : Bytes) (v : Int64) (kv : Kv)
      → s.config k v ≡ some kv
      → (kv.key ≡ k) × (kv.version ≡ v) × (kv.deleted ≡ false)
  pub collected : s.compacted ≤ s.revision

-- A record that may be written next.
pub record Follows (s : State) (kv : Kv) : Type 0 where
  pub follows_revision : kv.revision ≡ s.revision + 1
  pub version_small : kv.version ≤ s.revision + 1

pub Ascending-append :
    (r : ℕ) (l : List Kv) (kv : Kv) {top : ℕ}
    → r ≤ top
    → Ascending r l
    → All (λ x. x.revision ≤ top) l
    → top < kv.revision
    → Ascending r (l ++ (kv ∷ []))
Ascending-append r [] kv h a b t = (omega arith, tt)
Ascending-append r (x ∷ l) kv h (p, a) (q, b) t = (p, Ascending-append x.revision l kv q a b t)

pub All-append_below :
    (l : List Kv) (kv : Kv) {top : ℕ}
    → All (λ x. x.revision ≤ top) l
    → top < kv.revision
    → All (λ x. x.revision ≤ kv.revision) (l ++ (kv ∷ []))
All-append_below [] kv b t = omega arith
All-append_below (x ∷ l) kv (q, b) t = (omega arith, All-append_below l kv b t)

All-append_versions :
    (l : List Kv) (kv : Kv) {top : ℕ}
    → All (λ x. x.version ≤ top) l
    → top < kv.revision
    → kv.version ≤ kv.revision
    → All (λ x. x.version ≤ kv.revision) (l ++ (kv ∷ []))
All-append_versions [] kv b t h = omega arith
All-append_versions (x ∷ l) kv (q, b) t h = (omega arith, All-append_versions l kv b t h)

pub add_record-IsConsistent :
    (s : State) (kv : Kv)
    → IsConsistent s
    → Follows s kv
    → s.revision + 1 < 2 ^ 63
    → IsConsistent (add_record s kv)
add_record-IsConsistent s kv c f h = record {
  bounded = omega arith;
  current = λ k x e. ground (arith, bytes_eq_iff kv.key k, c.current k x);
  ascending = Ascending-append 0 s.history kv (omega arith) c.ascending c.recorded (omega arith);
  recorded = All-append_below s.history kv c.recorded (omega arith);
  versioned = All-append_versions s.history kv c.versioned (omega arith) (omega arith);
  published = c.published;
  collected = omega arith;
}

pub add_config-IsConsistent :
    (s : State) (kv : Kv) → IsConsistent s → kv.deleted ≡ false → IsConsistent (add_config s kv)
add_config-IsConsistent s kv c live = record {
  bounded = c.bounded;
  current = c.current;
  ascending = c.ascending;
  recorded = c.recorded;
  versioned = c.versioned;
  published = λ k v x e. ground (arith, bytes_eq_iff kv.key k, c.published k v x);
  collected = c.collected;
}

version_after-le :
    (top : ℕ) (k : Bytes) (o : Option Kv)
    → ((kv : Kv) → o ≡ some kv → Fits top k kv)
    → version_after o ≤ top + 1
version_after-le top k none h = omega arith
version_after-le top k (some kv) h = omega (arith, (h kv refl).version_fits)

-- The version after the current one is at most the revision after the current one.
pub version_bound :
    (s : State) (k : Bytes) → IsConsistent s → version_after (s.main k) ≤ s.revision + 1
version_bound s k c = version_after-le s.revision k (s.main k) (c.current k)

pub value_record-Follows :
    (s : State) (o : Option Kv) (key value : Bytes)
    → version_after o ≤ s.revision + 1
    → Follows s (value_record s o key value)
value_record-Follows s o key value h = record { follows_revision = refl; version_small = h }

pub delete_record-Follows :
    (s : State) (key : Bytes) → IsConsistent s → Follows s (delete_record s key)
delete_record-Follows s key c = record {
  follows_revision = refl;
  version_small = version_bound s key c;
}

pub write_all-IsConsistent :
    (base : Bytes → Option Kv) (s : State) (kvs : List (Bytes × Bytes))
    → IsConsistent s
    → ((k : Bytes) → version_after (base k) ≤ s.revision + 1)
    → s.revision + length kvs < 2 ^ 63
    → IsConsistent (write_all base s kvs).0
unfolding write_all
write_all-IsConsistent base s [] c b h = c
write_all-IsConsistent base s ((key, value) ∷ kvs) c b h =
    let kv = value_record s (base key) key value in
    write_all-IsConsistent base (add_record s kv) kvs
      (add_record-IsConsistent s kv c (value_record-Follows s (base key) key value (b key))
        (omega arith))
      (λ k. omega (arith, b k)) (omega arith)

publish-IsConsistent :
    (s : State) (key value : Bytes)
    → IsConsistent s
    → s.revision + 1 < 2 ^ 63
    → IsConsistent (publish_value s key value).state
publish-IsConsistent s key value c h =
    let kv = value_record s (s.main key) key value in
    add_config-IsConsistent (add_record s kv) kv
      (add_record-IsConsistent s kv c
        (value_record-Follows s (s.main key) key value (version_bound s key c)) h)
      refl

swap-IsConsistent :
    (s : State) (kv : Kv) (go : Bool)
    → IsConsistent s
    → Follows s kv
    → s.revision + 1 < 2 ^ 63
    → IsConsistent (swap_value s kv go).state
swap-IsConsistent s kv true c f h = add_record-IsConsistent s kv c f h
swap-IsConsistent s kv false c f h = c

republish-IsConsistent :
    (s : State) (key : Bytes) (target : Option Kv)
    → IsConsistent s
    → s.revision + 1 < 2 ^ 63
    → IsConsistent (republish s key target).state
republish-IsConsistent s key none c h = c
republish-IsConsistent s key (some target) c h = publish-IsConsistent s key target.value c h

-- Every command keeps the invariant, as long as the revisions that it takes stay below 2 ^ 63: the
-- history grows strictly in revision, no record passes the revision counter, and a published record
-- is found under its own key and version.
pub step-IsConsistent :
    (s : State) (cmd : RaftCmd)
    → IsConsistent s
    → s.revision + cost cmd < 2 ^ 63
    → IsConsistent (step s cmd).state
unfolding step
step-IsConsistent s (put key value) c h =
    add_record-IsConsistent s _ c
      (value_record-Follows s (s.main key) key value (version_bound s key c)) h
step-IsConsistent s (delete key) c h =
    add_record-IsConsistent s _ c (delete_record-Follows s key c) h
step-IsConsistent s (cas key expect value) c h =
    swap-IsConsistent s _ (swappable (s.main key) expect) c
      (value_record-Follows s (s.main key) key value (version_bound s key c)) h
step-IsConsistent s (publish key value) c h = publish-IsConsistent s key value c h
step-IsConsistent s (rollback key target_version) c h =
    republish-IsConsistent s key (named s key target_version) c h
step-IsConsistent s (batch_put puts) c h =
    write_all-IsConsistent s.main s puts c (λ k. version_bound s k c) h
step-IsConsistent s unset c h = c

write_all_revision :
    (base : Bytes → Option Kv) (s : State) (kvs : List (Bytes × Bytes))
    → (write_all base s kvs).0.revision ≡ s.revision + length kvs
unfolding write_all
write_all_revision base s [] = omega arith
write_all_revision base s ((key, value) ∷ kvs) =
    omega (arith, write_all_revision base (add_record s (value_record s (base key) key value)) kvs)

swap_revision :
    (s : State) (key value : Bytes) (go : Bool)
    → (swap_value s (value_record s (s.main key) key value) go).state.revision ≤ s.revision + 1
swap_revision s key value true = omega arith
swap_revision s key value false = omega arith

republish_revision :
    (s : State) (key : Bytes) (target : Option Kv)
    → (republish s key target).state.revision ≤ s.revision + 1
republish_revision s key none = omega arith
republish_revision s key (some target) = omega arith

-- A command takes no more revisions than its cost.
pub step_revision :
    (s : State) (cmd : RaftCmd) → (step s cmd).state.revision ≤ s.revision + cost cmd
unfolding step
step_revision s (put key value) = omega arith
step_revision s (delete key) = omega arith
step_revision s (cas key expect value) = swap_revision s key value (swappable (s.main key) expect)
step_revision s (publish key value) = omega arith
step_revision s (rollback key target_version) =
    republish_revision s key (named s key target_version)
step_revision s (batch_put puts) = omega (arith, write_all_revision s.main s puts)
step_revision s unset = omega arith
