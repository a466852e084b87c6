-- ===== src/Checks/Services.antt =====
-- The services at concrete requests.
use configraft.Base.{
  if◌then◌else◌, Bool-cases, ℕ, ◌≡◌, refl, true, false, none, some, Option, List, [], ◌∷◌, ◌++◌,
  arith, Int64, inl, inr,
}
use configraft.Base.Bytes.{Bytes, codes, bytes_eq, bytes_eq_iff}
use configraft.Proto.{Kv, ok}
use configraft.Results.{WatchResult}
use configraft.LevelDb.{Readable}
use configraft.LevelDb.Memory.{memory, memory_laws, fresh, fresh_find, memory-Readable}
use configraft.Mvcc.{empty, value_record}
use configraft.Store.Empty.{empty-Models, empty-IsConsistent}
use configraft.StoreOps
use configraft.LocalNode
use configraft.LocalNode.{Local}
use configraft.LocalNode.Interface.{local_node}
use configraft.Service.{
  ConfigNode, HttpRequest, HttpResponse, method_get, method_post, empty_response, KvResponse,
}
use configraft.Service.KvService
use configraft.Service.Dashboard
use configraft.Service.Rest
use configraft.Service.Guards.{put_call, after_call, Guarded, after_call-Guarded}
use configraft.Service.Origins.{is_allowed_origin-with_port}
use configraft.Service.Numbers.{with_query, nearest_negative, decimal, query_int64-decimal}
use configraft.Service.Paths.{dashboard-IsBelow, IsBelow}
use configraft.Service.EndToEnd.{Answers, post_of, get_of, post_then_get}
use configraft.Checks.Stores.{run_store}

abbrev watch : Local memory → Bytes → Int64 → Int64 → Int64 → WatchResult
watch node key from_rev timeout_ms waiter = record {
  code = ok;
  message = [];
  current_revision = 0;
  events = [];
}

abbrev service : ConfigNode
service = local_node memory watch

abbrev node : Local memory
node = record { store = fresh; hub = none }

abbrev byte_size : Kv → ℕ
byte_size kv = 1

-- A body is the value itself.
abbrev json_put : Bytes → Bytes
json_put body = body

abbrev json_cas : Bytes → Bytes × Bytes
json_cas body = ([], body)

abbrev json_batch : Bytes → List (Bytes × Bytes)
json_batch body = []

abbrev json_rollback : Bytes → Int64
json_rollback body = 0

abbrev http : HttpRequest
http = record {
  method = method_post;
  unresolved_path = codes "a";
  origin = some (codes "http://b.example");
  host = some (codes "a.example:80");
  queries = λ name. none;
  body = codes "1";
  deadline_us = 0;
}

after_call-Guarded_example : Guarded service byte_size node (
    after_call service byte_size json_put json_cas json_batch json_put json_rollback node
      (put_call http (codes "a") (codes "1")))
after_call-Guarded_example =
    after_call-Guarded service byte_size json_put json_cas json_batch json_put json_rollback node
      (put_call http (codes "a") (codes "1"))

is_allowed_origin-with_port_example :
    Rest.is_allowed_origin (codes "http://a:80") (codes "a") ≡ true
unfolding bytes_eq
is_allowed_origin-with_port_example =
    is_allowed_origin-with_port b'h' b'a' (codes "ttp") (codes "a") (codes "a") []
      (some (codes "80")) none (refl, (refl, (refl, (refl, tt)))) (refl, (refl, tt)) (refl, tt) refl

-- Of addresses in brackets without a port the last groups are not compared.
brackets : Rest.is_allowed_origin (codes "http://[::1]") (codes "[::2]") ≡ true
unfolding bytes_eq Rest.is_allowed_origin configraft.Base.Bytes.starts_with
brackets = refl

-- A file beside the directory, and a file in it.
abbrev secret : Bytes
secret = codes "web/../passwd"

abbrev read_page : Bytes → Option Bytes
read_page path = if bytes_eq path (codes "web/index.html") then some (codes "page") else none

abbrev read_all : Bytes → Option Bytes
read_all path = if bytes_eq path secret then some (codes "root") else read_page path

below_secret : (p : Bytes) → IsBelow p → bytes_eq (codes "web" ++ (b'/' ∷ p)) secret ≡ false
unfolding bytes_eq
below_secret p h = elim (Bool-cases (bytes_eq p (codes "../passwd"))) [
  | inl e ↦ absurd (h.no_climb [] (codes "/passwd") ((bytes_eq_iff p (codes "../passwd")).0 e))
  | inr e ↦ e
]

same_below :
    (p : Bytes)
    → IsBelow p
    → read_page (codes "web" ++ (b'/' ∷ p)) ≡ read_all (codes "web" ++ (b'/' ∷ p))
same_below p h = rw (below_secret p h) refl

dashboard-IsBelow_example :
    Dashboard.dashboard read_page (codes "web") method_get (codes "../passwd") empty_response
    ≡ Dashboard.dashboard read_all (codes "web") method_get (codes "../passwd") empty_response
dashboard-IsBelow_example =
    dashboard-IsBelow read_page read_all (codes "web") method_get (codes "../passwd") empty_response
      same_below

-- A POST of a value to a fresh node.
abbrev posted : Local memory × KvResponse × HttpResponse
posted =
    KvService.rest service byte_size json_put json_cas json_batch node
      (post_of http (codes "a") (codes "1")) empty_response

posted_code : posted.1.code ≡ ok
unfolding run_store KvService.rest KvService.rest_method KvService.rest_post LocalNode.apply
    Rest.handle_cors_preflight Rest.is_valid_key Rest.fill_response StoreOps.apply_cmd_to_store
posted_code = refl

posted_readable : Readable memory posted.0.store
unfolding run_store KvService.rest KvService.rest_method KvService.rest_post LocalNode.apply
    Rest.handle_cors_preflight Rest.is_valid_key StoreOps.apply_cmd_to_store
posted_readable = memory-Readable posted.0.store refl

post_then_get_example :
    let kv = value_record empty none (codes "a") (codes "1") in
    Answers posted.1 kv
    × Answers
        (KvService.rest service byte_size json_put json_cas json_batch posted.0
          (get_of http (codes "a"))
          empty_response).1
        kv
unfolding Rest.is_valid_key KvService.ends_with bytes_eq
post_then_get_example =
    post_then_get memory memory_laws watch byte_size (λ kv h. omega arith) node empty
      (empty-Models memory memory_laws fresh fresh_find) empty-IsConsistent
      (memory-Readable fresh refl) (omega arith) json_put json_cas json_batch http http
      empty_response empty_response (codes "a") (codes "1") refl refl refl posted_code
      posted_readable

query_int64-decimal_example :
    (Rest.query_int64 (with_query http (some (codes "12ms"))) (codes "timeout_ms") 30000 ≡ 12)
    × (Rest.query_int64 (with_query http (some (codes "-12ms"))) (codes "timeout_ms") 30000
        ≡ nearest_negative 12)
    × (Rest.query_int64 (with_query http none) (codes "timeout_ms") 30000 ≡ 30000)
    × (Rest.query_int64 (with_query http (some [])) (codes "timeout_ms") 30000 ≡ 30000)
unfolding decimal
query_int64-decimal_example =
    query_int64-decimal http (codes "timeout_ms") 30000 1 (2 ∷ []) (codes "ms") (omega arith) refl
