-- ===== src/Checks/Listings.antt =====
-- The versions of a concrete store.
use configraft.Base.{All}
use configraft.LevelDb.Memory.{memory, memory_laws, fresh, fresh_find}
use configraft.Proto.{Kv, publish}
use configraft.Store.Listing.{Rising}
use configraft.Store.Listing.Published.{
  ShowsPublished, Published, get_history-Published, empty-ShowsPublished, apply_cmd-ShowsPublished,
}
use configraft.Store.Scan
use configraft.StoreOps
use configraft.StoreOps.{apply_cmd_to_store}
use configraft.Checks.Stores.{
  key, value, after_publish, published_state, after_publish-Models, published-IsConsistent,
}
use mathlib.Core.List.{Memᴰ}

shows : ShowsPublished memory memory_laws after_publish
unfolding apply_cmd_to_store StoreOps.apply_publish
shows =
    apply_cmd-ShowsPublished memory memory_laws fresh (publish key value)
      (empty-ShowsPublished memory memory_laws fresh fresh_find)

abbrev IsListed : Kv → Type 0
IsListed =
    Published memory memory_laws after_publish published_state after_publish-Models
      published-IsConsistent shows key

get_history-Published_example :
    All IsListed (Scan.get_history memory after_publish key)
    × ((kv : Kv) → IsListed kv → Memᴰ kv (Scan.get_history memory after_publish key))
    × Rising (Scan.get_history memory after_publish key)
get_history-Published_example =
    get_history-Published memory memory_laws after_publish published_state after_publish-Models
      published-IsConsistent shows key
