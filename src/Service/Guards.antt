-- ===== src/Service/Guards.antt =====
-- Which commands reach the node, and for whom.
use configraft.Base.{
  ℕ, ◌≡◌, refl, Bool, true, false, not, List, [], ◌∷◌, if◌then◌else◌, arith, Int64, All, ◌⊎◌, inl,
  inr, Bool-cases,
}
use configraft.Base.Bytes.{Bytes, codes, bytes_eq}
use configraft.Proto.{Kv, RaftCmd, put, delete, cas, publish, rollback, batch_put, unset}
use configraft.Service.{
  ConfigNode, HttpMethod, method_get, method_post, method_delete, method_options, method_other,
  HttpRequest, HttpResponse,
}
use configraft.Service.Rest
use configraft.Service.KvService
use configraft.Service.ConfigService

-- Every key of a command is there.
abbrev pub HasKeys : RaftCmd → Type 0
HasKeys (put key value) = Rest.is_valid_key key ≡ true
HasKeys (delete key) = Rest.is_valid_key key ≡ true
HasKeys (cas key expect value) = Rest.is_valid_key key ≡ true
HasKeys (publish key value) = Rest.is_valid_key key ≡ true
HasKeys (rollback key version) = Rest.is_valid_key key ≡ true
HasKeys (batch_put puts) = All (λ e. Rest.is_valid_key e.0 ≡ true) puts
HasKeys unset = ⊥

-- A call of the key-value service or of the configuration service, by RPC or by HTTP.
pub data Call : Type 0 where
  put_call : HttpRequest → Bytes → Bytes → Call
  delete_call : HttpRequest → Bytes → Call
  batch_call : List (Bytes × Bytes) → Call
  cas_call : HttpRequest → Bytes → Bytes → Bytes → Call
  publish_call : HttpRequest → Bytes → Bytes → Call
  rollback_call : HttpRequest → Bytes → Int64 → Call
  kv_call config_call : HttpRequest → HttpResponse → Call

entries-All :
    (entries : List (Bytes × Bytes))
    → KvService.has_empty_key entries ≡ false
    → All (λ e. Rest.is_valid_key e.0 ≡ true) entries
unfolding KvService.has_empty_key
entries-All [] h = tt
entries-All ((key, value) ∷ entries) h = (ground arith, entries-All entries (ground arith))

module _ (N : ConfigNode) (byte_size : Kv → ℕ) where
  -- The node is as before, or has got one command, all of whose keys are there.
  abbrev pub Guarded : N.Node → N.Node → Type 0
  Guarded node node' =
      (node' ≡ node) ⊎ ((cmd : RaftCmd) × HasKeys cmd × (node' ≡ (N.apply node cmd).0))

  refused-Guarded :
      {R : Type 0} (node : N.Node) (refused : Bool) (cmd : RaftCmd) (r r' : R)
      → (refused ≡ false → HasKeys cmd)
      → Guarded node (if◌then◌else◌ {A = N.Node × R} refused (node, r) ((N.apply node cmd).0, r')).0
  refused-Guarded node true cmd r r' h = inl refl
  refused-Guarded node false cmd r r' h = inr (cmd, h refl, refl)

  valid : (key : Bytes) → not (Rest.is_valid_key key) ≡ false → Rest.is_valid_key key ≡ true
  valid key h = ground arith

  do_put-Guarded :
      (node : N.Node) (key value : Bytes)
      → Guarded node (KvService.do_put N byte_size node key value).0
  unfolding KvService.do_put KvService.apply_response
  do_put-Guarded node key value = refused-Guarded node _ (put key value) _ _ (valid key)

  do_delete-Guarded :
      (node : N.Node) (key : Bytes) → Guarded node (KvService.do_delete N byte_size node key).0
  unfolding KvService.do_delete KvService.apply_response
  do_delete-Guarded node key = refused-Guarded node _ (delete key) _ _ (valid key)

  do_cas-Guarded :
      (node : N.Node) (key expect value : Bytes)
      → Guarded node (KvService.do_cas N byte_size node key expect value).0
  unfolding KvService.do_cas KvService.apply_response
  do_cas-Guarded node key expect value =
      refused-Guarded node _ (cas key expect value) _ _ (valid key)

  do_batch_put-Guarded :
      (node : N.Node) (entries : List (Bytes × Bytes))
      → Guarded node (KvService.do_batch_put N byte_size node entries).0
  unfolding KvService.do_batch_put KvService.apply_response
  do_batch_put-Guarded node entries =
      refused-Guarded node _ (batch_put entries) _ _ (entries-All entries)

  do_publish-Guarded :
      (node : N.Node) (key value : Bytes)
      → Guarded node (ConfigService.do_publish N node key value).0
  unfolding ConfigService.do_publish
  do_publish-Guarded node key value = refused-Guarded node _ (publish key value) _ _ (valid key)

  do_rollback-Guarded :
      (node : N.Node) (key : Bytes) (version : Int64)
      → Guarded node (ConfigService.do_rollback N node key version).0
  unfolding ConfigService.do_rollback
  do_rollback-Guarded node key version =
      refused-Guarded node _ (rollback key version) _ _ (valid key)

  module _ (json_put : Bytes → Bytes) (json_cas : Bytes → Bytes × Bytes)
      (json_batch : Bytes → List (Bytes × Bytes)) (json_publish : Bytes → Bytes)
      (json_rollback : Bytes → Int64) where
    rest_post-Guarded :
        (node : N.Node) (path body : Bytes)
        → Guarded node
            (KvService.rest_post N byte_size json_put json_cas json_batch node path body).0
    unfolding KvService.rest_post
    rest_post-Guarded node path body = elim (Bool-cases (KvService.ends_with (codes "/cas") path)) [
      | inl h ↦ rw h (do_cas-Guarded node _ _ _)
      | inr h ↦ elim (Bool-cases (bytes_eq path (codes "batch"))) [
        | inl q ↦ rw (h, q) (do_batch_put-Guarded node _)
        | inr q ↦ rw (h, q) (do_put-Guarded node _ _)
      ]
    ]

    rest_method-Guarded :
        (node : N.Node) (method : HttpMethod) (http : HttpRequest)
        → Guarded node
            (KvService.rest_method N byte_size json_put json_cas json_batch node method http).0
    unfolding KvService.rest_method
    rest_method-Guarded node method_get http = inl refl
    rest_method-Guarded node method_post http = rest_post-Guarded node _ _
    rest_method-Guarded node method_delete http = do_delete-Guarded node _
    rest_method-Guarded node method_options http = inl refl
    rest_method-Guarded node method_other http = inl refl

    config_method-Guarded :
        (node : N.Node) (method : HttpMethod) (http : HttpRequest)
        → Guarded node (ConfigService.config_method N json_publish json_rollback node method http).0
    unfolding ConfigService.config_method ConfigService.config_post
    config_method-Guarded node method_get http = inl refl
    config_method-Guarded node method_post http =
        elim (Bool-cases (KvService.ends_with (codes "/rollback") http.unresolved_path)) [
          | inl h ↦ rw h (do_rollback-Guarded node _ _)
          | inr h ↦ rw h (do_publish-Guarded node _ _)
        ]
    config_method-Guarded node method_delete http = inl refl
    config_method-Guarded node method_options http = inl refl
    config_method-Guarded node method_other http = inl refl

    handled-Guarded :
        {R S : Type 0} (node : N.Node) (handled : Bool) (x : N.Node × R) (r : R) (s : S)
        → Guarded node x.0
        → Guarded node (if◌then◌else◌ {A = N.Node × R × S} handled (node, r, s) (x.0, x.1, s)).0
    handled-Guarded node true x r s h = inl refl
    handled-Guarded node false x r s h = h

    -- The node after a call.
    abbrev pub after_call : N.Node → Call → N.Node
    after_call node (put_call http key value) =
        (KvService.rpc_put N byte_size node http key value).0
    after_call node (delete_call http key) = (KvService.rpc_delete N byte_size node http key).0
    after_call node (batch_call entries) = (KvService.rpc_batch_put N byte_size node entries).0
    after_call node (cas_call http key expect value) =
        (KvService.rpc_cas N byte_size node http key expect value).0
    after_call node (publish_call http key value) =
        (ConfigService.rpc_publish N node http key value).0
    after_call node (rollback_call http key version) =
        (ConfigService.rpc_rollback N node http key version).0
    after_call node (kv_call http response) =
        (KvService.rest N byte_size json_put json_cas json_batch node http response).0
    after_call node (config_call http response) =
        (ConfigService.config_rest N json_publish json_rollback node http response).0

    -- A call of the key-value service or of the configuration service, by RPC or by HTTP and whatever
    -- its method, path and body, leaves the node as it was or gives it one command; and no key of
    -- that command is empty.
    pub after_call-Guarded : (node : N.Node) (call : Call) → Guarded node (after_call node call)
    unfolding KvService.rpc_put KvService.rpc_delete KvService.rpc_batch_put KvService.rpc_cas
        ConfigService.rpc_publish ConfigService.rpc_rollback KvService.rest
        ConfigService.config_rest
    after_call-Guarded node (put_call http key value) = do_put-Guarded node _ value
    after_call-Guarded node (delete_call http key) = do_delete-Guarded node _
    after_call-Guarded node (batch_call entries) = do_batch_put-Guarded node entries
    after_call-Guarded node (cas_call http key expect value) = do_cas-Guarded node _ expect value
    after_call-Guarded node (publish_call http key value) = do_publish-Guarded node _ value
    after_call-Guarded node (rollback_call http key version) = do_rollback-Guarded node _ version
    after_call-Guarded node (kv_call http response) =
        handled-Guarded node _ _ _ _ (rest_method-Guarded node http.method http)
    after_call-Guarded node (config_call http response) =
        handled-Guarded node _ _ _ _ (config_method-Guarded node http.method http)
