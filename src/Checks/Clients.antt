-- ===== src/Checks/Clients.antt =====
-- The client at concrete flags.
use configraft.Base.{ℕ, ◌≡◌, refl, true, none, [], Int64}
use configraft.Base.Bytes.{Bytes, codes, bytes_eq}
use configraft.Client.{default_flags, Channel, run_client, replied, failed}
use configraft.Client.Exits.{Exits, run_client-Exits}
use configraft.LevelDb.Memory.{memory, fresh}
use configraft.LocalNode
use configraft.LocalNode.{Local}
use configraft.Proto.{Kv, ok}
use configraft.Results.{WatchResult}
use configraft.Service.{HttpRequest, method_post, empty_kv_response}
use configraft.Service.KvService
use configraft.Service.Rest
use configraft.StoreOps

abbrev watch : Local memory → Bytes → Int64 → Int64 → Int64 → WatchResult
watch node key from_rev timeout_ms waiter = record {
  code = ok;
  message = [];
  current_revision = 0;
  events = [];
}

abbrev node : Local memory
node = record { store = fresh; hub = none }

abbrev byte_size : Kv → ℕ
byte_size kv = 1

-- A request by RPC has no path.
abbrev rpc : HttpRequest
rpc = record {
  method = method_post;
  unresolved_path = [];
  origin = none;
  host = none;
  queries = λ name. none;
  body = [];
  deadline_us = 0;
}

-- The service answers puts alone.
abbrev puts_only : Channel
puts_only = record {
  connects = λ server timeout_ms. true;
  kv = λ request. replied empty_kv_response;
  health = λ request. failed (codes "timeout");
  admin = λ request. failed (codes "timeout");
}

abbrev key : Bytes
key = codes "a"

abbrev value : Bytes
value = codes "1"

run_client-Exits_example :
    Exits puts_only (run_client puts_only (record default_flags { method = codes "GetHealth" }))
run_client-Exits_example =
    run_client-Exits puts_only (record default_flags { method = codes "GetHealth" })

-- The method that the help of the flag names is not one of the client's.
batch_put_exit :
    (run_client puts_only (record default_flags { method = codes "BatchPut" })).exit_code ≡ 1
unfolding run_client bytes_eq
batch_put_exit = refl
