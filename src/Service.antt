-- ===== src/Service.antt =====
-- src/server: the services. They use a node through the interface ConfigNode of src/raft/node.h, and
-- an HTTP request and its response, which brpc provides, as the records of what they read and set.
pub mod Rest
pub mod KvService
pub mod ConfigService
pub mod OtherServices
pub mod Dashboard
pub mod Guards
pub mod Origins
pub mod Paths
pub mod EndToEnd
pub mod Numbers
use configraft.Base.{ℕ, Bool, Option, none, List, [], Int64}
use configraft.Base.Bytes.{Bytes}
use configraft.Proto.{Kv, Code, ok, WatchEvent, RaftCmd}
use configraft.Results.{ApplyResult, GetResult, ConfigResult, WatchResult, ConfChangeResult}

-- The operations of `ConfigNode` that a service calls. An operation that changes the node returns it.
pub record ConfigNode : Type 1 where
  pub Node : Type 0
  pub apply : Node → RaftCmd → Node × ApplyResult
  pub get : Node → Bytes → Bool → GetResult
  pub get_config : Node → Bytes → Int64 → ConfigResult
  pub watch : Node → Bytes → Int64 → Int64 → Int64 → WatchResult
  pub add_peer : Node → Bytes → Node × ConfChangeResult
  pub remove_peer : Node → Bytes → Node × ConfChangeResult
  pub role : Node → Bytes
  pub term : Node → Int64
  pub commit_index : Node → Int64
  pub applied_index : Node → Int64
  pub leader_id : Node → Bytes
  pub peers : Node → List Bytes

-- The methods that the services tell apart.
pub data HttpMethod : Type 0 where
  method_get method_post method_delete method_options method_other : HttpMethod

-- What the services read of a request; `queries` are the parameters of the URL.
pub record HttpRequest : Type 0 where
  pub method : HttpMethod
  pub unresolved_path : Bytes
  pub origin : Option Bytes
  pub host : Option Bytes
  pub queries : Bytes → Option Bytes
  pub body : Bytes
  pub deadline_us : Int64

-- What they set of a response besides its message.
pub record HttpResponse : Type 0 where
  pub allow_origin : Option Bytes
  pub vary : Option Bytes
  pub allow_methods : Option Bytes
  pub allow_headers : Option Bytes
  pub status_code : Option ℕ
  pub content_type : Option Bytes
  pub attachment : Bytes

abbrev pub empty_response : HttpResponse
empty_response = record {
  allow_origin = none;
  vary = none;
  allow_methods = none;
  allow_headers = none;
  status_code = none;
  content_type = none;
  attachment = [];
}

-- The messages that the services answer with.
pub record KvResponse : Type 0 where
  pub code : Code
  pub message : Bytes
  pub kv : Option Kv
  pub kvs : List Kv

pub record ConfigResponse : Type 0 where
  pub code : Code
  pub message : Bytes
  pub kv : Option Kv
  pub history : List Kv

pub record WatchResponse : Type 0 where
  pub code : Code
  pub message : Bytes
  pub current_revision : Int64
  pub events : List WatchEvent

pub record GetHealthResponse : Type 0 where
  pub code : Code
  pub message : Bytes
  pub role : Bytes
  pub term : Int64
  pub commit_index : Int64
  pub applied_index : Int64
  pub leader_id : Bytes
  pub peers : List Bytes

pub record AdminResponse : Type 0 where
  pub code : Code
  pub message : Bytes

abbrev pub empty_kv_response : KvResponse
empty_kv_response = record { code = ok; message = []; kv = none; kvs = [] }

abbrev pub empty_config_response : ConfigResponse
empty_config_response = record { code = ok; message = []; kv = none; history = [] }
