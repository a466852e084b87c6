-- ===== src/Service/KvService.antt =====
-- src/server/kv_service_impl.cpp: the key-value service. `byte_size` is protobuf's, and `json_put`,
-- `json_cas` and `json_batch` are the requests that json2pb leaves behind for a body; whether it
-- could parse the body is not looked at.
use configraft.Base.{
  ℕ, ◌-◌, Bool, true, false, not, ◌&&◌, Option, none, some, List, [], ◌∷◌, length, take, drop, leb,
  if◌then◌else◌,
}
use configraft.Base.Bytes.{Bytes, codes, bytes_eq}
use configraft.Proto.{
  Kv, Code, ok, invalid_argument, internal, RaftCmd, put, delete, cas, batch_put,
}
use configraft.Results.{GetResult}
use configraft.Service.{
  ConfigNode, HttpMethod, method_get, method_post, method_delete, HttpRequest, HttpResponse,
  KvResponse, empty_kv_response,
}
use configraft.Service.Rest

unfoldable pub invalid_kv : Bytes → KvResponse
invalid_kv message = record empty_kv_response { code = invalid_argument; message = message }

unfoldable pub is_code_ok : Code → Bool
is_code_ok ok = true
is_code_ok _ = false

unfoldable pub get_response : GetResult → KvResponse
unfolding is_code_ok
get_response r = record empty_kv_response {
  code = r.code;
  message = Rest.leader_hint r.code r.leader_id r.message;
  kv = if is_code_ok r.code then some r.kv else none;
}

-- `path.size() >= suffix.size()` and the last bytes of the path are the suffix.
unfoldable pub ends_with : Bytes → Bytes → Bool
ends_with suffix path =
    leb (length suffix) (length path) && bytes_eq (drop (length path - length suffix) path) suffix

unfoldable pub strip : Bytes → Bytes → Bytes
strip suffix path = take (length path - length suffix) path

unfoldable pub has_empty_key : List (Bytes × Bytes) → Bool
has_empty_key [] = false
has_empty_key ((key, value) ∷ entries) =
    let rest = has_empty_key entries in if not (Rest.is_valid_key key) then true else rest

module _ (N : ConfigNode) (byte_size : Kv → ℕ) where
  -- The end of every write: `Apply`, and its result as the response.
  unfoldable pub apply_response : N.Node → RaftCmd → N.Node × KvResponse
  apply_response node cmd =
      let (node', result) = N.apply node cmd in (node', Rest.fill_response byte_size result)

  unfoldable pub do_put : N.Node → Bytes → Bytes → N.Node × KvResponse
  unfolding apply_response invalid_kv
  do_put node key value =
      if not (Rest.is_valid_key key)
      then (node, invalid_kv (codes "empty key"))
      else apply_response node (put key value)

  unfoldable pub do_get : N.Node → Bytes → Bool → KvResponse
  unfolding get_response
  do_get node key serializable = get_response (N.get node key serializable)

  unfoldable pub do_delete : N.Node → Bytes → N.Node × KvResponse
  unfolding apply_response invalid_kv
  do_delete node key =
      if not (Rest.is_valid_key key)
      then (node, invalid_kv (codes "empty key"))
      else apply_response node (delete key)

  unfoldable pub do_batch_put : N.Node → List (Bytes × Bytes) → N.Node × KvResponse
  unfolding apply_response invalid_kv has_empty_key
  do_batch_put node entries =
      if has_empty_key entries
      then (node, invalid_kv (codes "batch contains empty key"))
      else apply_response node (batch_put entries)

  unfoldable pub do_cas : N.Node → Bytes → Bytes → Bytes → N.Node × KvResponse
  unfolding apply_response invalid_kv
  do_cas node key expect value =
      if not (Rest.is_valid_key key)
      then (node, invalid_kv (codes "empty key"))
      else apply_response node (cas key expect value)

  -- The RPC methods.
  unfoldable pub rpc_put : N.Node → HttpRequest → Bytes → Bytes → N.Node × KvResponse
  unfolding do_put
  rpc_put node http key value = do_put node (Rest.resolve_key http key) value

  unfoldable pub rpc_get : N.Node → HttpRequest → Bytes → Bool → KvResponse
  unfolding do_get
  rpc_get node http key serializable = do_get node (Rest.resolve_key http key) serializable

  unfoldable pub rpc_delete : N.Node → HttpRequest → Bytes → N.Node × KvResponse
  unfolding do_delete
  rpc_delete node http key = do_delete node (Rest.resolve_key http key)

  unfoldable pub rpc_batch_put : N.Node → List (Bytes × Bytes) → N.Node × KvResponse
  unfolding do_batch_put
  rpc_batch_put node entries = do_batch_put node entries

  unfoldable pub rpc_cas : N.Node → HttpRequest → Bytes → Bytes → Bytes → N.Node × KvResponse
  unfolding do_cas
  rpc_cas node http key expect value = do_cas node (Rest.resolve_key http key) expect value

  unfoldable pub is_true : Option Bytes → Bool
  is_true none = false
  is_true (some v) = bytes_eq v (codes "true")

  module _ (json_put : Bytes → Bytes) (json_cas : Bytes → Bytes × Bytes)
      (json_batch : Bytes → List (Bytes × Bytes)) where
    unfoldable pub rest_post : N.Node → Bytes → Bytes → N.Node × KvResponse
    unfolding do_cas do_batch_put do_put ends_with strip
    rest_post node path body =
        if ends_with (codes "/cas") path
        then do_cas node (strip (codes "/cas") path) (json_cas body).0 (json_cas body).1
        else if bytes_eq path (codes "batch")
        then do_batch_put node (json_batch body)
        else do_put node path (json_put body)

    -- The answer by method, behind the preflight.
    unfoldable pub rest_method : N.Node → HttpMethod → HttpRequest → N.Node × KvResponse
    unfolding rest_post do_get do_delete is_true
    rest_method node method_get http =
        (node, do_get node http.unresolved_path (is_true (http.queries (codes "serializable"))))
    rest_method node method_delete http = do_delete node http.unresolved_path
    rest_method node method_post http = rest_post node http.unresolved_path http.body
    rest_method node _ http = (
      node,
      record empty_kv_response { code = internal; message = codes "unsupported http method" },
    )

    unfoldable pub rest : N.Node → HttpRequest → HttpResponse → N.Node × KvResponse × HttpResponse
    unfolding rest_method
    rest node http response =
        let (response', handled) = Rest.handle_cors_preflight http response in
        let (node', answer) = rest_method node http.method http in
        if handled then (node, empty_kv_response, response') else (node', answer, response')
