-- ===== src/Store/Listing.antt =====
-- The versions that GetHistory lists: the loop of src/store/store.cpp as a choice among entries.
pub mod Published
use configraft.Base.{
  ℕ, ◌+◌, ◌^◌, ◌<◌, ◌≡◌, refl, sym, subst, ap, ◌∙◌, Bool, true, false, not, ◌||◌, Option, none,
  some, List, [], ◌∷◌, ◌++◌, All, arith, Int64, if◌then◌else◌, Bool-cases, inl, inr, append_assoc,
  append-nil, ap₂, ltb,
}
use configraft.Base.Bytes.{
  Bytes, bytes_eq, bytes_eq_iff, bytes_eq_refl, lt_bytes, starts_with, starts_with-append,
  lt_bytes-append,
}
use configraft.LevelDb.{Engine, EngineLaws}
use configraft.LevelDb.Sorted.{
  Entries, Above, lookup, IsSorted, prefixed, lookup-prefixed, IsSorted-prefixed,
}
use configraft.Mvcc.{State}
use configraft.Mvcc.Invariant.{IsConsistent}
use configraft.Proto.{Kv, RaftCmd}
use configraft.Store.Contents.{stored}
use configraft.Store.Loading.{All-lookup}
use configraft.Store.Loading.Keys.{config_of, from-starts_with}
use configraft.Store.Published.{apply_cmd-Only}
use configraft.Store.Reads.{Models}
use configraft.Store.Scan
use configraft.StoreOps.{apply_cmd_to_store}
use configraft.StoreKey.{config_prefix, config_key, encode_ord}
use configraft.StoreKey.Order.{lt_bytes-encode_ord}
use mathlib.Core.List.{Memᴰ}

-- Versions grow strictly.
abbrev pub Rising : List Kv → Type 0
Rising [] = Unit {0}
Rising (kv ∷ l) = All (λ x. kv.version < x.version) l × Rising l

starts_with-left : (p q j : Bytes) → starts_with (p ++ q) j ≡ true → starts_with p j ≡ true
unfolding starts_with
starts_with-left [] q j h = refl
starts_with-left (x ∷ p) q [] h = cc h
starts_with-left (x ∷ p) q (y ∷ j) h = ground (arith, starts_with-left p q j)

pick : Bytes → Option Kv → List Kv → List Kv
pick key none rest = rest
pick key (some kv) rest = if not (bytes_eq kv.key key) || kv.deleted then rest else kv ∷ rest

pick_lem :
    (key : Bytes) (o : Option Kv) (rest : List Kv)
    → (elim o [
      | none ↦ rest
      | some kv ↦ if not (bytes_eq kv.key key) || kv.deleted then rest else kv ∷ rest
    ])
      ≡ pick key o rest
unfolding pick
pick_lem key none rest = refl
pick_lem key (some kv) rest = refl

module _ (E : Engine) where
  -- The records of the entries that parse, of one key, tombstones left out.
  picks : Bytes → Entries → List Kv
  picks key [] = []
  picks key ((k, raw) ∷ l) = let rest = picks key l in pick key (E.parse raw) rest

  history_loop-picks :
      (p key : Bytes) (l : Entries) → Scan.history_loop E p key l ≡ picks key (prefixed p l)
  unfolding Scan.history_loop picks
  history_loop-picks p key [] = refl
  history_loop-picks p key ((k, raw) ∷ l) = elim (Bool-cases (starts_with p k)) [
    | inl h ↦
        rw h
          (pick_lem key (E.parse raw) _ ∙ ap (pick key (E.parse raw)) (history_loop-picks p key l))
    | inr h ↦ rw h refl
  ]

  -- A record that an entry holds under its own key and version, which is 64-bit.
  abbrev pub Shows : Bytes → Bytes → Type 0
  Shows j raw = (kv : Kv) × (j ≡ config_of kv) × (raw ≡ E.serialize kv) × (kv.version < 2 ^ 64)
