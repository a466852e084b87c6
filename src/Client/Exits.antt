-- ===== src/Client/Exits.antt =====
-- What the exit code of the client tells.
use configraft.Base.{
  ◌≡◌, refl, Bool, true, false, ◌||◌, [], ◌∷◌, ◌++◌, if◌then◌else◌, ◌⊎◌, inl, inr,
}
use configraft.Base.Bytes.{Bytes, bytes_eq, codes}
use configraft.Client
use configraft.Client.{
  ClientFlags, Request, put_request, get_request, delete_request, cas_request, health_request,
  add_peer_request, remove_peer_request, Reply, replied, failed, Channel, Run, refusal, finish,
  run_client,
}

abbrev pub is_reply : {A : Type 0} → Reply A → Bool
is_reply (replied a) = true
is_reply (failed error) = false

-- Whether the services answer a request.
abbrev pub is_answered : Channel → Request → Bool
is_answered channel health_request = is_reply (channel.health health_request)
is_answered channel (add_peer_request peer) = is_reply (channel.admin (add_peer_request peer))
is_answered channel (remove_peer_request peer) = is_reply (channel.admin (remove_peer_request peer))
is_answered channel request = is_reply (channel.kv request)

module _ (channel : Channel) where
  -- One request was answered, and nothing was logged; or nothing was printed, and no request was sent
  -- or one that was not answered.
  unfoldable pub Exits : Run → Type 0
  Exits run =
      ((request : Request) × (run.sent ≡ request ∷ [])
        × (is_answered channel request ≡ true)
        × (run.exit_code ≡ 0)
        × (run.logged ≡ []))
      ⊎ ((run.exit_code ≡ 1)
          × (run.printed ≡ [])
          × ((run.sent ≡ [])
              ⊎ (request : Request) × (run.sent ≡ request ∷ [])
                × (is_answered channel request ≡ false)))

  refusal-Exits : (text : Bytes) → Exits (refusal text)
  unfolding Exits
  refusal-Exits text = inr (refl, refl, inl refl)

  finish-Exits :
      {A : Type 0} (method : Bytes) (request : Request) (text : A → Bytes) (reply : Reply A)
      → is_answered channel request ≡ is_reply reply
      → Exits (finish method request text reply)
  unfolding finish Exits
  finish-Exits method request text (replied resp) e = inl (request, refl, e, refl, refl)
  finish-Exits method request text (failed error) e = inr (refl, refl, inr (request, refl, e))

  either_run : (b : Bool) (x y : Run) → Exits x → Exits y → Exits (if b then x else y)
  either_run true x y h k = h
  either_run false x y h k = k

  member-Exits :
      (method peer : Bytes) (b : Bool)
      → let request = if b then add_peer_request peer else remove_peer_request peer in
        Exits (
          finish method request
            (λ resp. Client.coded_text (method ++ codes ": ") resp.code resp.message)
            (channel.admin request))
  member-Exits method peer true =
      finish-Exits method (add_peer_request peer) _ (channel.admin (add_peer_request peer)) refl
  member-Exits method peer false =
      finish-Exits method (remove_peer_request peer) _ (channel.admin (remove_peer_request peer))
        refl

  change_peer-Exits : (method peer : Bytes) → Exits (Client.change_peer channel method peer)
  unfolding Client.change_peer
  change_peer-Exits method peer =
      either_run (bytes_eq peer []) _ _
        (refusal-Exits (method ++ codes " requires --peer=127.0.0.1:8004"))
        (member-Exits method peer (bytes_eq method (codes "AddPeer")))

  -- A run of the client exits with 0 exactly if it sent one request and that was answered, and then
  -- it logs no error, whatever the code in the answer; otherwise it exits with 1, prints nothing, and
  -- has sent no request or one that was not answered.
  pub run_client-Exits : (flags : ClientFlags) → Exits (run_client channel flags)
  unfolding run_client Client.dispatch
  run_client-Exits flags =
      let method = flags.method in
      let key = flags.key in
      let cas = cas_request key flags.expect flags.value in
      either_run (channel.connects flags.server flags.timeout_ms) _ _
        (either_run (bytes_eq method (codes "Put")) _ _
          (finish-Exits method (put_request key flags.value) Client.put_text (channel.kv _) refl)
          (either_run (bytes_eq method (codes "Get")) _ _
            (finish-Exits method (get_request key) Client.get_text (channel.kv _) refl)
            (either_run (bytes_eq method (codes "Delete")) _ _
              (finish-Exits method (delete_request key) Client.delete_text (channel.kv _) refl)
              (either_run (bytes_eq method (codes "CAS")) _ _
                (finish-Exits method cas
                  (λ resp. Client.coded_text (codes "CAS: ") resp.code resp.message)
                  (channel.kv cas) refl)
                (either_run (bytes_eq method (codes "GetHealth")) _ _
                  (finish-Exits method health_request Client.health_text (channel.health _) refl)
                  (either_run
                    (bytes_eq method (codes "AddPeer") || bytes_eq method (codes "RemovePeer")) _ _
                    (change_peer-Exits method flags.peer)
                    (refusal-Exits (codes "unknown method: " ++ method))))))))
        (refusal-Exits (codes "fail to init channel to " ++ flags.server))
