-- ===== src/Service/OtherServices.antt =====
-- src/server/watch_service_impl.cpp and src/server/admin_service_impl.cpp.
use configraft.Base.{[], if◌then◌else◌, Int64}
use configraft.Base.Bytes.{Bytes, codes}
use configraft.Proto.{ok, internal}
use configraft.Results.{WatchResult, ConfChangeResult}
use configraft.Service.{
  ConfigNode, HttpMethod, method_get, HttpRequest, HttpResponse, WatchResponse, GetHealthResponse,
  AdminResponse,
}
use configraft.Service.Rest

unfoldable pub watch_response : WatchResult → WatchResponse
watch_response r = record {
  code = r.code;
  message = r.message;
  current_revision = r.current_revision;
  events = r.events;
}

abbrev pub empty_watch_response : WatchResponse
empty_watch_response = record { code = ok; message = []; current_revision = 0; events = [] }

abbrev pub empty_health : GetHealthResponse
empty_health = record {
  code = ok;
  message = [];
  role = [];
  term = 0;
  commit_index = 0;
  applied_index = 0;
  leader_id = [];
  peers = [];
}

unfoldable pub admin_response : ConfChangeResult → AdminResponse
admin_response r = record { code = r.code; message = r.message }

abbrev pub empty_admin : AdminResponse
empty_admin = record { code = ok; message = [] }

module _ (N : ConfigNode) where
  unfoldable pub do_watch : N.Node → Bytes → Int64 → Int64 → Int64 → WatchResponse
  unfolding watch_response
  do_watch node key from_revision timeout_ms server_deadline_us =
      watch_response (N.watch node key from_revision timeout_ms server_deadline_us)

  -- The RPC takes all from its request but the deadline.
  unfoldable pub rpc_watch : N.Node → HttpRequest → Bytes → Int64 → Int64 → WatchResponse
  unfolding do_watch
  rpc_watch node http key from_revision timeout_ms =
      do_watch node key from_revision timeout_ms http.deadline_us

  unfoldable pub watch_method : N.Node → HttpMethod → HttpRequest → WatchResponse
  unfolding do_watch
  watch_method node method_get http =
      do_watch node http.unresolved_path (Rest.query_int64 http (codes "from_revision") 0)
        (Rest.query_int64 http (codes "timeout_ms") 30000) http.deadline_us
  watch_method node _ http = record empty_watch_response {
    code = internal;
    message = codes "unsupported http method, use GET";
  }

  unfoldable pub watch_rest : N.Node → HttpRequest → HttpResponse → WatchResponse × HttpResponse
  unfolding watch_method
  watch_rest node http response =
      let (response', handled) = Rest.handle_cors_preflight http response in
      let answer = watch_method node http.method http in
      if handled then (empty_watch_response, response') else (answer, response')

  unfoldable pub get_health : N.Node → HttpRequest → HttpResponse → GetHealthResponse × HttpResponse
  get_health node http response =
      let (response', handled) = Rest.handle_cors_preflight http response in
      let answer : GetHealthResponse = record {
        code = ok;
        message = codes "ok";
        role = N.role node;
        term = N.term node;
        commit_index = N.commit_index node;
        applied_index = N.applied_index node;
        leader_id = N.leader_id node;
        peers = N.peers node;
      } in
      if handled then (empty_health, response') else (answer, response')

  unfoldable pub admin_add_peer :
      N.Node → HttpRequest → HttpResponse → Bytes → N.Node × AdminResponse × HttpResponse
  unfolding admin_response
  admin_add_peer node http response peer =
      let (response', handled) = Rest.handle_cors_preflight http response in
      let (node', result) = N.add_peer node peer in
      if handled then (node, empty_admin, response') else (node', admin_response result, response')

  unfoldable pub admin_remove_peer :
      N.Node → HttpRequest → HttpResponse → Bytes → N.Node × AdminResponse × HttpResponse
  unfolding admin_response
  admin_remove_peer node http response peer =
      let (response', handled) = Rest.handle_cors_preflight http response in
      let (node', result) = N.remove_peer node peer in
      if handled then (node, empty_admin, response') else (node', admin_response result, response')
