-- ===== src/Store/Replay.antt =====
-- What ReplayEvents of src/store/store.cpp returns, beside the records of the history.
use Prim.Native.Nat.add
use mathlib.Core.Option
use configraft.Base.{
  ℕ, zero, suc, ◌+◌, ◌^◌, ◌≤◌, ◌<◌, ◌≡◌, refl, subst, ◌∙◌, Bool, true, false, not, ◌&&◌, ◌||◌, some,
  List, [], ◌∷◌, map, All, keep, take, length, ltb, leb, if◌then◌else◌, arith, Int64, increment,
  slt-ltb,
}
use configraft.Base.Bytes.{Bytes, bytes_eq, starts_with}
use configraft.Proto.{Kv}
use configraft.StoreKey.{version_prefix, version_key, encode_ord}
use configraft.StoreKey.RoundTrip.{decode_ord-encode_ord_plain}
use configraft.LevelDb.{Engine, EngineLaws, Readable}
use configraft.LevelDb.Sorted.{Entries, prefixed}
use configraft.Mvcc.{State}
use configraft.Mvcc.Invariant.{IsConsistent, Ascending}
use configraft.Store.Contents.{entry}
use configraft.Store.Reads.{Models, compact_rev-Models}
use configraft.Store.History.{since, seek-since, Ascending-since, All-since, All-below}
use configraft.Store.Scan
use configraft.Store.Scan.{Replay, replayed, compacted, thrown, revision_part}
use configraft.StoreOps.{make_event}

-- A record up to revision `current` that a watcher of `key` sees; the empty key watches all.
abbrev pub seen : ℕ → Bytes → Kv → Bool
seen current key kv = leb kv.revision current && (bytes_eq key [] || bytes_eq kv.key key)

length-version_key : (r : Int64) (k : Bytes) → ltb (length (version_key r k)) 18 ≡ false
unfolding version_key encode_ord
length-version_key r k = ground arith

revision_part-version_key : (r : Int64) (k : Bytes) → revision_part (version_key r k) ≡ encode_ord r
unfolding version_key encode_ord
revision_part-version_key r k = refl

prefix-version_key : (r : Int64) (k : Bytes) → starts_with version_prefix (version_key r k) ≡ true
unfolding starts_with version_key
prefix-version_key r k = refl

replay_event-make_event :
    (E : Engine) (kv : Kv) → Scan.replay_event E kv.revision kv ≡ make_event kv
unfolding Scan.replay_event make_event
replay_event-make_event E kv = ground arith

-- Past `current` no record is seen.
keep-none :
    (current r : ℕ) (key : Bytes) (l : List Kv)
    → current ≤ r
    → Ascending r l
    → keep (seen current key) l ≡ []
keep-none current r key [] h a = refl
keep-none current r key (x ∷ l) h (p, a) =
    ground (arith, keep-none current x.revision key l (omega arith) a)

one_more : (n room : ℕ) → n + 1 + suc room ≡ n + suc (suc room)
one_more n room = omega arith

small_increment : (v : ℕ) → v + 1 < 2 ^ 63 → increment v ≡ v + 1
small_increment v h = omega arith

module _ (E : Engine) (laws : EngineLaws E) where
  -- The loop does not look past the history's prefix.
  replay_loop-prefixed :
      (current : Int64) (key : Bytes) (max_events n : ℕ) (l : Entries)
      → Scan.replay_loop E current key max_events n l
        ≡ Scan.replay_loop E current key max_events n (prefixed version_prefix l)
  unfolding Scan.replay_loop
  replay_loop-prefixed current key max_events n [] = refl
  replay_loop-prefixed current key max_events n ((k, raw) ∷ l) = ground (
    arith,
    replay_loop-prefixed current key max_events n l,
    replay_loop-prefixed current key max_events (n + 1) l,
  )

  -- One round of the loop on a record of the history.
  replay_loop_record :
      (current : Int64) (key : Bytes) (max_events n : ℕ) (kv : Kv) (l : Entries)
      → kv.revision < 2 ^ 63
      → current < 2 ^ 63
      → Scan.replay_loop E current key max_events n (entry E kv ∷ l) ≡ (
          if ltb current kv.revision
          then some []
          else if not (bytes_eq key []) && not (bytes_eq kv.key key)
          then Scan.replay_loop E current key max_events n l
          else if leb max_events (n + 1)
          then some (make_event kv ∷ [])
          else Option.map
              (λ events. make_event kv ∷ events)
              (Scan.replay_loop E current key max_events (n + 1) l))
  unfolding Scan.replay_loop
  replay_loop_record current key max_events n kv l h hc =
      rw
        (
          prefix-version_key kv.revision kv.key,
          length-version_key kv.revision kv.key,
          revision_part-version_key kv.revision kv.key,
          decode_ord-encode_ord_plain kv.revision h,
          laws.parse-serialize kv,
        )
        (rw (slt-ltb current kv.revision hc h, replay_event-make_event E kv))

  -- With room for `room` + 1 events the loop returns the first ones that are seen.
  replay_loop_records :
      (current : Int64) (key : Bytes) (n room r : ℕ) (l : List Kv)
      → current < 2 ^ 63
      → All (λ kv. kv.revision < 2 ^ 63) l
      → Ascending r l
      → Scan.replay_loop E current key (n + suc room) n (map (entry E) l)
        ≡ some (take (suc room) (map make_event (keep (seen current key) l)))
  unfolding Scan.replay_loop
  replay_loop_records current key n room r [] hc b a = refl
  replay_loop_records current key n zero r (x ∷ l) hc (q, b) (p, a) =
      replay_loop_record current key (n + 1) n x (map (entry E) l) q hc
      ∙ ground (
        arith,
        keep-none current x.revision key l,
        replay_loop_records current key n zero x.revision l hc b a,
      )
  replay_loop_records current key n (suc room) r (x ∷ l) hc (q, b) (p, a) =
      replay_loop_record current key (n + suc (suc room)) n x (map (entry E) l) q hc
      ∙ ground (
        arith,
        keep-none current x.revision key l,
        replay_loop_records current key n (suc room) x.revision l hc b a,
        subst
            (λ k.
              Scan.replay_loop E current key k (n + 1) (map (entry E) l)
              ≡ some (take (suc room) (map make_event (keep (seen current key) l))))
            (one_more n room) (replay_loop_records current key (n + 1) room x.revision l hc b a),
      )

module _ (E : Engine) (laws : EngineLaws E) (d : E.Db) (s : State) (m : Models E laws d s)
    (c : IsConsistent s) (readable : Readable E d) where
  -- The answer for a watcher of `key` that has seen everything up to revision `from`.
  abbrev pub replay_answer : ℕ → ℕ → Bytes → ℕ → Replay
  replay_answer from current key max_events =
      if ltb from s.compacted
      then compacted
      else replayed
          (take max_events (map make_event (keep (seen current key) (since E from s.history))))

  replay_found :
      (from current : ℕ) (key : Bytes) (room : ℕ)
      → from + 1 < 2 ^ 63
      → current < 2 ^ 63
      → Scan.replay_loop E current key (suc room) 0 (E.seek d (version_key (increment from) []))
        ≡ some (take (suc room) (map make_event (keep (seen current key) (since E from s.history))))
  replay_found from current key room hf hc =
      rw
        (
          small_increment from hf,
          replay_loop-prefixed E laws current key (suc room) 0
              (E.seek d (version_key (from + 1) [])),
          seek-since E laws d s m c from hf,
        )
        (subst
          (λ k.
            Scan.replay_loop E current key k 0 (map (entry E) (since E from s.history))
            ≡ some (
                take (suc room)
                  (map make_event (keep (seen current key) (since E from s.history)))))
          (add.zero (suc room))
          (replay_loop_records E laws current key 0 room 0 (since E from s.history) hc
            (All-since E (2 ^ 63) from s.history
              (All-below s.history (omega (arith, c.bounded)) c.recorded))
            (Ascending-since E 0 from s.history c.ascending)))

  -- no record behind `from` is seen if `current` is not behind `from`
  none_seen :
      (from current : ℕ) (key : Bytes) (l : List Kv)
      → current ≤ from
      → keep (seen current key) (since E from l) ≡ []
  none_seen from current key [] h = refl
  none_seen from current key (x ∷ l) h = ground (arith, none_seen from current key l h)

  replay_from-replay_answer :
      (from current : ℕ) (key : Bytes) (room : ℕ)
      → from + 1 < 2 ^ 63
      → current < 2 ^ 63
      → s.compacted < 2 ^ 63
      → Scan.replay_from E d from current key (suc room) ≡ replay_answer from current key (suc room)
  unfolding Scan.replay_from Scan.loop_result
  replay_from-replay_answer from current key room hf hc hs =
      rw
        (
          compact_rev-Models E laws d s m readable,
          slt-ltb from s.compacted (omega arith) hs,
          slt-ltb from current (omega arith) hc,
        )
        (ground
          (arith, replay_found from current key room hf hc, none_seen from current key s.history))

  -- With a limit between 1 and 2 ^ 31 - 1, and revisions below 2 ^ 63 - 1, ReplayEvents on a readable
  -- database that holds a consistent state answers COMPACTED if `from` stands before the revision of
  -- compaction. Otherwise it returns the first `max_events` records of the key (of all keys for the
  -- empty key) behind `from` and up to `current`, deletions among them, in the order of the
  -- revisions, each as the event that was broadcast when it was applied.
  pub replay_events-make_event :
      (from current : ℕ) (key : Bytes) (max_events : ℕ)
      → from + 1 < 2 ^ 63
      → current < 2 ^ 63
      → 0 < max_events
      → max_events < 2 ^ 31
      → Scan.replay_events E d from current key max_events
        ≡ replay_answer from current key max_events
  unfolding Scan.replay_events
  replay_events-make_event from current key zero hf hc h0 hm = absurd (omega arith)
  replay_events-make_event from current key (suc room) hf hc h0 hm = ground (
    arith,
    replay_from-replay_answer from current key room hf hc (omega (arith, c.bounded, c.collected)),
  )
