-- ===== src/Service/Rest.antt =====
-- src/server/rest_util.h: what the services share.

use configraft.Base.{
  ℕ, ◌+◌, ◌-◌, ◌*◌, ◌%◌, ◌^◌, Bool, true, false, ◌&&◌, ◌||◌, Option, none, some, [], ◌∷◌, ◌++◌,
  length, drop, ltb, leb, ◌==◌, if◌then◌else◌, Int64,
}
use configraft.Base.Bytes.{Bytes, codes, bytes_eq, starts_with}
use configraft.Proto.{Kv, Code, ok, not_leader}
use configraft.Results.{ApplyResult}
use configraft.Service.{
  HttpMethod, method_options, HttpRequest, HttpResponse, KvResponse, empty_kv_response,
}

-- `path` if it is not empty, else the key of the request.
unfoldable pub resolve_key : HttpRequest → Bytes → Bytes
resolve_key request req_key = elim request.unresolved_path [ [] ↦ req_key | c ∷ path ↦ c ∷ path ]

-- `s.find(p)` and `s.substr(... + p.size())`: what follows the first occurrence of `p`.
unfoldable pub after_first : Bytes → Bytes → Option Bytes
after_first p [] = if starts_with p [] then some [] else none
after_first p (c ∷ s) =
    let rest = after_first p s in
    if starts_with p (c ∷ s) then some (drop (length p) (c ∷ s)) else rest

-- `s.rfind(c)` and `s.substr(0, ...)`: what stands before the last occurrence of `c`.
unfoldable pub before_last : ℕ → Bytes → Option Bytes
before_last c [] = none
before_last c (x ∷ s) = elim (before_last c s) [
  | some front ↦ some (x ∷ front)
  | none ↦ if x == c then some [] else none
]

-- A host without its port.
unfoldable pub cut_port : Bytes → Bytes
unfolding before_last
cut_port host = elim (before_last b':' host) [ none ↦ host | some front ↦ front ]

-- The comparison behind the scheme of the origin, if it has one.
unfoldable pub is_same_host : Option Bytes → Bytes → Bool
unfolding cut_port
is_same_host none request_host = false
is_same_host (some origin_host) request_host =
    bytes_eq (cut_port origin_host) (cut_port request_host)

unfoldable pub is_allowed_origin : Bytes → Bytes → Bool
unfolding after_first is_same_host
is_allowed_origin [] request_host = false
is_allowed_origin (c ∷ origin) [] = false
is_allowed_origin (c ∷ origin) (d ∷ request_host) =
    is_same_host (after_first (codes "://") (c ∷ origin)) (d ∷ request_host)

-- Whether the response may name the origin, and which.
unfoldable pub allowed_origin : Option Bytes → Option Bytes → Option Bytes
unfolding is_allowed_origin
allowed_origin none host = none
allowed_origin (some origin) none = none
allowed_origin (some origin) (some host) =
    if is_allowed_origin origin host then some origin else none

unfoldable pub is_options : HttpMethod → Bool
is_options method_options = true
is_options _ = false

-- The response with its headers, and whether the request has been handled.
unfoldable pub handle_cors_preflight : HttpRequest → HttpResponse → HttpResponse × Bool
unfolding allowed_origin is_options
handle_cors_preflight request response =
    let named : HttpResponse = elim (allowed_origin request.origin request.host) [
      | none ↦ response
      | some origin ↦ record response { allow_origin = some origin; vary = some (codes "Origin") }
    ] in
    let answered = record named {
      allow_methods = some (codes "GET,POST,DELETE,OPTIONS");
      allow_headers = some (codes "Content-Type");
    } in
    if is_options request.method
    then (record answered { status_code = some 200 }, true)
    else (answered, false)

unfoldable pub is_valid_key : Bytes → Bool
is_valid_key [] = false
is_valid_key (c ∷ key) = true

-- `std::strtoll(s, nullptr, 10)`: blanks, a sign, digits; a value out of range is the nearest bound.
unfoldable pub is_blank : ℕ → Bool
is_blank c = c == 32 || leb 9 c && leb c 13

unfoldable pub skip_blanks : Bytes → Bytes
unfolding is_blank
skip_blanks [] = []
skip_blanks (c ∷ s) = let rest = skip_blanks s in if is_blank c then rest else c ∷ s

unfoldable pub decimal_loop : Bytes → ℕ → ℕ
decimal_loop [] acc = acc
decimal_loop (c ∷ s) acc =
    let rest = decimal_loop s (acc * 10 + (c - 48)) in
    if leb b'0' c && leb c b'9' then rest else acc

unfoldable pub negative_number : Bytes → Int64
unfolding decimal_loop
negative_number s =
    let n = decimal_loop s 0 in if leb (2 ^ 63) n then 2 ^ 63 else (2 ^ 64 - n) % 2 ^ 64

unfoldable pub positive_number : Bytes → Int64
unfolding decimal_loop
positive_number s = let n = decimal_loop s 0 in if leb (2 ^ 63) n then 2 ^ 63 - 1 else n

unfoldable pub signed_decimal : Bytes → Int64
unfolding negative_number positive_number
signed_decimal [] = 0
signed_decimal (c ∷ s) =
    if c == b'-'
    then negative_number s
    else if c == b'+'
    then positive_number s
    else positive_number (c ∷ s)

unfoldable pub parse_int64 : Bytes → Int64
unfolding skip_blanks signed_decimal
parse_int64 s = signed_decimal (skip_blanks s)

unfoldable pub query_int64 : HttpRequest → Bytes → Int64 → Int64
unfolding parse_int64
query_int64 request name dflt = elim (request.queries name) [
  | none ↦ dflt
  | some [] ↦ dflt
  | some (c ∷ v) ↦ parse_int64 (c ∷ v)
]

-- The hint of a node that is not the leader, in place of the message.
unfoldable pub leader_hint : Code → Bytes → Bytes → Bytes
leader_hint not_leader [] message = message
leader_hint not_leader (c ∷ leader) message = codes "not leader, leader=" ++ (c ∷ leader)
leader_hint _ leader message = message

-- `byte_size` is protobuf's size of a message: an unset one has size 0.
unfoldable pub fill_response : (Kv → ℕ) → ApplyResult → KvResponse
unfolding leader_hint
fill_response byte_size r = elim r.code [
  | ok ↦ record {
    code = ok;
    message = r.message;
    kv = if ltb 0 (byte_size r.kv) then some r.kv else none;
    kvs = r.kvs;
  }
  | code ↦ record empty_kv_response {
    code = code;
    message = leader_hint code r.leader_id r.message;
  }
]
