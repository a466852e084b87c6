-- ===== src/Service/ConfigService.antt =====
-- src/server/config_service_impl.cpp: the configuration service. `json_publish` and `json_rollback`
-- are what json2pb leaves of a body: the value, and the version to roll back to.
use configraft.Base.{not, none, some, [], if◌then◌else◌, Int64}
use configraft.Base.Bytes.{Bytes, codes}
use configraft.Proto.{invalid_argument, internal, publish, rollback}
use configraft.Results.{ApplyResult, ConfigResult}
use configraft.Service.{
  ConfigNode, HttpMethod, method_get, method_post, HttpRequest, HttpResponse, ConfigResponse,
  empty_config_response,
}
use configraft.Service.Rest
use configraft.Service.KvService.{is_code_ok, ends_with, strip}

unfoldable pub invalid_config : ConfigResponse
invalid_config = record empty_config_response {
  code = invalid_argument;
  message = codes "empty key";
}

unfoldable pub write_response : ApplyResult → ConfigResponse
unfolding is_code_ok
write_response r = record empty_config_response {
  code = r.code;
  message = Rest.leader_hint r.code r.leader_id r.message;
  kv = if is_code_ok r.code then some r.kv else none;
}

unfoldable pub read_response : ConfigResult → ConfigResponse
unfolding is_code_ok
read_response r = record {
  code = r.code;
  message = r.message;
  kv = if is_code_ok r.code then some r.kv else none;
  history = if is_code_ok r.code then r.history else [];
}

module _ (N : ConfigNode) where
  unfoldable pub do_publish : N.Node → Bytes → Bytes → N.Node × ConfigResponse
  unfolding write_response invalid_config
  do_publish node key value =
      let (node', result) = N.apply node (publish key value) in
      if not (Rest.is_valid_key key) then (node, invalid_config) else (node', write_response result)

  unfoldable pub do_get_config : N.Node → Bytes → Int64 → ConfigResponse
  unfolding read_response
  do_get_config node key version = read_response (N.get_config node key version)

  unfoldable pub do_rollback : N.Node → Bytes → Int64 → N.Node × ConfigResponse
  unfolding write_response invalid_config
  do_rollback node key target_version =
      let (node', result) = N.apply node (rollback key target_version) in
      if not (Rest.is_valid_key key) then (node, invalid_config) else (node', write_response result)

  unfoldable pub rpc_publish : N.Node → HttpRequest → Bytes → Bytes → N.Node × ConfigResponse
  unfolding do_publish
  rpc_publish node http key value = do_publish node (Rest.resolve_key http key) value

  unfoldable pub rpc_get_config : N.Node → HttpRequest → Bytes → Int64 → ConfigResponse
  unfolding do_get_config
  rpc_get_config node http key version = do_get_config node (Rest.resolve_key http key) version

  unfoldable pub rpc_rollback : N.Node → HttpRequest → Bytes → Int64 → N.Node × ConfigResponse
  unfolding do_rollback
  rpc_rollback node http key target_version =
      do_rollback node (Rest.resolve_key http key) target_version

  module _ (json_publish : Bytes → Bytes) (json_rollback : Bytes → Int64) where
    unfoldable pub config_post : N.Node → Bytes → Bytes → N.Node × ConfigResponse
    unfolding do_rollback do_publish
    config_post node path body =
        if ends_with (codes "/rollback") path
        then do_rollback node (strip (codes "/rollback") path) (json_rollback body)
        else do_publish node path (json_publish body)

    unfoldable pub config_method : N.Node → HttpMethod → HttpRequest → N.Node × ConfigResponse
    unfolding config_post do_get_config
    config_method node method_get http =
        (node, do_get_config node http.unresolved_path (Rest.query_int64 http (codes "version") 0))
    config_method node method_post http = config_post node http.unresolved_path http.body
    config_method node _ http = (
      node,
      record empty_config_response { code = internal; message = codes "unsupported http method" },
    )

    unfoldable pub config_rest :
        N.Node → HttpRequest → HttpResponse → N.Node × ConfigResponse × HttpResponse
    unfolding config_method
    config_rest node http response =
        let (response', handled) = Rest.handle_cors_preflight http response in
        let (node', answer) = config_method node http.method http in
        if handled then (node, empty_config_response, response') else (node', answer, response')
