-- ===== src/Server/Cleaning.antt =====
-- src/server/server.cpp: the thread that compacts the store, StartCompactionLoop, beside the commands
-- that the node applies. The destructor sets the flag `stop_compaction_` under the lock that the
-- thread holds but while it waits.
use configraft.Base.{Bool, true, false, none, some, List, [], ◌∷◌}
use configraft.LevelDb.{Engine}
use configraft.Proto.{RaftCmd}
use configraft.Server.{keep_versions}
use configraft.Store.Scan
use configraft.StoreOps.{apply_cmd_to_store}

-- One wait of the thread: the commands that the node applies during it, and whether the flag is set
-- when it ends.
pub record Round : Type 0 where
  pub commands : List RaftCmd
  pub stop : Bool

module _ (E : Engine) where
  -- The thread has ended, waits, or was ended by an exception; with the database.
  pub data Cleaner : Type 0 where
    ended : E.Db → Cleaner
    waiting : E.Db → Cleaner
    aborted : Cleaner

  unfoldable pub apply_all : E.Db → List RaftCmd → E.Db
  apply_all d [] = d
  apply_all d (cmd ∷ cmds) = apply_all (apply_cmd_to_store E d cmd).0 cmds

  -- What follows a wait: the end, or a compaction and the next round.
  unfoldable pub after_wait : E.Db → Bool → (E.Db → Cleaner) → Cleaner
  after_wait d true next = ended d
  after_wait d false next = elim (Scan.compaction E d keep_versions) [
    | none ↦ aborted
    | some r ↦ next r.0
  ]

  -- `stop` is the flag at the head of the loop.
  unfoldable pub compaction_loop : Bool → E.Db → List Round → Cleaner
  unfolding apply_all after_wait
  compaction_loop true d rounds = ended d
  compaction_loop false d [] = waiting d
  compaction_loop false d (r ∷ rounds) =
      after_wait (apply_all d r.commands) r.stop (λ d'. compaction_loop r.stop d' rounds)
