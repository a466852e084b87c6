-- ===== src/Client.antt =====
-- src/client/client_main.cpp: the command line client. The channel, the stubs and the parser of flags
-- are brpc's and gflags': what a call is answered is a parameter.
pub mod Exits
pub mod EndToEnd
use configraft.Base.{
  ℕ, ◌-◌, ◌^◌, Bool, true, false, ◌||◌, Option, none, some, List, [], ◌∷◌, ◌++◌, if◌then◌else◌,
  Int64, Int32, is_negative,
}
use configraft.Base.Bytes.{Bytes, bytes_eq, codes}
use configraft.Proto.{
  Kv, empty_kv, Code, ok, key_not_found, cas_failed, not_leader, version_not_found, compacted,
  invalid_argument, internal,
}
use configraft.Server.{digits_of}
use configraft.Service.{KvResponse, GetHealthResponse, AdminResponse}

pub record ClientFlags : Type 0 where
  pub server : Bytes
  pub method : Bytes
  pub key : Bytes
  pub value : Bytes
  pub expect : Bytes
  pub peer : Bytes
  pub timeout_ms : Int32

abbrev pub default_flags : ClientFlags
default_flags = record {
  server = codes "127.0.0.1:8000";
  method = codes "Get";
  key = [];
  value = [];
  expect = [];
  peer = [];
  timeout_ms = 3000;
}

-- The requests that the client sends.
pub data Request : Type 0 where
  put_request : Bytes → Bytes → Request
  get_request : Bytes → Request
  delete_request : Bytes → Request
  cas_request : Bytes → Bytes → Bytes → Request
  health_request : Request
  add_peer_request : Bytes → Request
  remove_peer_request : Bytes → Request

-- A call that was answered, or the text of the controller's error.
pub data Reply (A : Type 0) : Type 0 where
  replied : A → Reply A
  failed : Bytes → Reply A

-- The channel and its stubs: whether it can be set up, and the answers of the services.
pub record Channel : Type 0 where
  pub connects : Bytes → Int32 → Bool
  pub kv : Request → Reply KvResponse
  pub health : Request → Reply GetHealthResponse
  pub admin : Request → Reply AdminResponse

-- What a run prints, what it logs as an error, its exit code, and the requests that it sent.
pub record Run : Type 0 where
  pub printed : Bytes
  pub logged : Bytes
  pub exit_code : ℕ
  pub sent : List Request

abbrev pub refusal : Bytes → Run
refusal text = record { printed = []; logged = text; exit_code = 1; sent = [] }

-- A number of a response as `std::cout` writes it.
unfoldable pub number_text : Int64 → Bytes
unfolding digits_of
number_text v = if is_negative v then b'-' ∷ digits_of 20 (2 ^ 64 - v) [] else digits_of 20 v []

unfoldable pub code_number : Code → Int64
code_number ok = 0
code_number key_not_found = 1
code_number cas_failed = 2
code_number not_leader = 3
code_number version_not_found = 4
code_number compacted = 5
code_number invalid_argument = 6
code_number internal = 100

-- The texts of the answers. `resp.kv()` is an empty message if the field is not set.
unfoldable pub kv_of : Option Kv → Kv
kv_of none = empty_kv
kv_of (some kv) = kv

unfoldable pub kv_numbers : Kv → Bytes
unfolding number_text
kv_numbers kv =
    codes " version=" ++ (number_text kv.version ++ (codes " revision=" ++ number_text kv.revision))

unfoldable pub code_text : Bytes → Code → Bytes
unfolding number_text code_number
code_text label code = label ++ (codes "code=" ++ number_text (code_number code))

unfoldable pub put_text : KvResponse → Bytes
unfolding kv_of kv_numbers code_text
put_text resp = code_text (codes "Put ok, ") resp.code ++ kv_numbers (kv_of resp.kv)

unfoldable pub coded_text : Bytes → Code → Bytes → Bytes
unfolding code_text
coded_text label code message = code_text label code ++ (codes " message=" ++ message)

unfoldable pub value_text : Kv → Bytes
unfolding kv_numbers
value_text kv = codes "Get: value=" ++ (kv.value ++ kv_numbers kv)

unfoldable pub get_text : KvResponse → Bytes
unfolding coded_text kv_of value_text
get_text resp = elim resp.code [
  | ok ↦ value_text (kv_of resp.kv)
  | _ ↦ coded_text (codes "Get: ") resp.code resp.message
]

unfoldable pub delete_text : KvResponse → Bytes
unfolding code_text
delete_text resp = code_text (codes "Delete: ") resp.code

unfoldable pub peers_text : List Bytes → Bytes
peers_text [] = []
peers_text (peer ∷ []) = peer
peers_text (peer ∷ next ∷ peers) = peer ++ (codes ", " ++ peers_text (next ∷ peers))

unfoldable pub health_text : GetHealthResponse → Bytes
unfolding number_text peers_text
health_text resp =
    codes "role="
    ++ (resp.role
        ++ (codes " term="
            ++ (number_text resp.term
                ++ (codes " commit="
                    ++ (number_text resp.commit_index
                        ++ (codes " applied="
                            ++ (number_text resp.applied_index
                                ++ (codes " leader="
                                    ++ (resp.leader_id
                                        ++ (codes " peers=["
                                            ++ (peers_text resp.peers ++ codes "]")))))))))))

-- What follows a call: the text of the answer, or an error.
unfoldable pub finish : {A : Type 0} → Bytes → Request → (A → Bytes) → Reply A → Run
finish method request text (replied resp) = record {
  printed = text resp ++ (10 ∷ []);
  logged = [];
  exit_code = 0;
  sent = request ∷ [];
}
finish method request text (failed error) = record {
  printed = [];
  logged = method ++ (codes " failed: " ++ error);
  exit_code = 1;
  sent = request ∷ [];
}

-- The branch of a change of members.
unfoldable pub change_peer : Channel → Bytes → Bytes → Run
unfolding finish coded_text
change_peer channel method peer =
    if bytes_eq peer []
    then refusal (method ++ codes " requires --peer=127.0.0.1:8004")
    else (let request =
          if bytes_eq method (codes "AddPeer")
          then add_peer_request peer
          else remove_peer_request peer in
        finish method request (λ resp. coded_text (method ++ codes ": ") resp.code resp.message)
          (channel.admin request))

-- The branches of `main`, by the method.
unfoldable pub dispatch : Channel → ClientFlags → Run
unfolding finish put_text get_text delete_text coded_text health_text change_peer
dispatch channel flags =
    let method = flags.method in
    if bytes_eq method (codes "Put")
    then finish method (put_request flags.key flags.value) put_text
        (channel.kv (put_request flags.key flags.value))
    else if bytes_eq method (codes "Get")
    then finish method (get_request flags.key) get_text (channel.kv (get_request flags.key))
    else if bytes_eq method (codes "Delete")
    then finish method (delete_request flags.key) delete_text
        (channel.kv (delete_request flags.key))
    else if bytes_eq method (codes "CAS")
    then finish method (cas_request flags.key flags.expect flags.value)
        (λ resp. coded_text (codes "CAS: ") resp.code resp.message)
        (channel.kv (cas_request flags.key flags.expect flags.value))
    else if bytes_eq method (codes "GetHealth")
    then finish method health_request health_text (channel.health health_request)
    else if bytes_eq method (codes "AddPeer") || bytes_eq method (codes "RemovePeer")
    then change_peer channel method flags.peer
    else refusal (codes "unknown method: " ++ method)

unfoldable pub run_client : Channel → ClientFlags → Run
unfolding dispatch
run_client channel flags =
    if channel.connects flags.server flags.timeout_ms
    then dispatch channel flags
    else refusal (codes "fail to init channel to " ++ flags.server)
