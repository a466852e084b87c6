-- ===== src/Client/EndToEnd.antt =====
-- The client, the key-value service, a single node and its store together.
use configraft.Base.{ℕ, ◌<◌, ◌≡◌, true, false, [], ◌∷◌, ◌++◌, Int64}
use configraft.Base.Bytes.{Bytes, codes}
use configraft.Client
use configraft.Client.{
  ClientFlags, Request, put_request, get_request, delete_request, cas_request, Reply, replied,
  failed, Channel, Run, value_text, kv_numbers,
}
use configraft.LevelDb.{Engine, EngineLaws}
use configraft.LocalNode.{Local}
use configraft.LocalNode.Interface.{local_node}
use configraft.Proto.{Kv}
use configraft.Results.{WatchResult}
use configraft.Service.{ConfigNode, HttpRequest, KvResponse, empty_kv_response}
use configraft.Service.KvService
use configraft.Service.Rest

abbrev pub put_flags : ClientFlags → Bytes → Bytes → ClientFlags
put_flags flags key value = record flags { method = codes "Put"; key = key; value = value }

abbrev pub get_flags : ClientFlags → Bytes → ClientFlags
get_flags flags key = record flags { method = codes "Get"; key = key }

-- The line that a Put prints for a record, and a Get.
abbrev pub put_line : Kv → Bytes
put_line kv = (codes "Put ok, code=0" ++ kv_numbers kv) ++ (10 ∷ [])

abbrev pub get_line : Kv → Bytes
get_line kv = value_text kv ++ (10 ∷ [])

module _ (E : Engine) (laws : EngineLaws E)
    (watch : Local E → Bytes → Int64 → Int64 → Int64 → WatchResult) (byte_size : Kv → ℕ)
    (sized : (kv : Kv) → 0 < kv.revision → 0 < byte_size kv) (http : HttpRequest)
    (by_rpc : http.unresolved_path ≡ []) where
  abbrev pub service : ConfigNode
  service = local_node E watch

  -- What the key-value service of a node answers to the client.
  abbrev pub answer : Local E → Request → KvResponse
  answer node (put_request key value) = (KvService.rpc_put service byte_size node http key value).1
  answer node (get_request key) = KvService.rpc_get service byte_size node http key false
  answer node (delete_request key) = (KvService.rpc_delete service byte_size node http key).1
  answer node (cas_request key expect value) =
      (KvService.rpc_cas service byte_size node http key expect value).1
  answer node request = empty_kv_response

  -- A channel to that service.
  abbrev pub channel_to : Local E → Channel
  channel_to node = record {
    connects = λ server timeout_ms. true;
    kv = λ request. replied (answer node request);
    health = λ request. failed [];
    admin = λ request. failed [];
  }

  -- The node that a Put leaves.
  abbrev pub after_put : Local E → Bytes → Bytes → Local E
  after_put node key value = (KvService.rpc_put service byte_size node http key value).0
