-- ===== src/Service/EndToEnd.antt =====
-- The key-value service, a single node and its store together: a value posted, then read.
use configraft.Base.{
  ℕ, ◌+◌, ◌^◌, ◌<◌, ◌≡◌, refl, ap, sym, subst, ◌∙◌, true, false, some, List, Int64, arith,
}
use configraft.Base.Bytes.{Bytes, codes, bytes_eq}
use configraft.Proto.{Kv, ok}
use configraft.Results.{WatchResult}
use configraft.LevelDb.{Engine, EngineLaws, Readable}
use configraft.Mvcc.{State, value_record}
use configraft.Mvcc.Invariant.{IsConsistent}
use configraft.Store
use configraft.Store.{hit}
use configraft.Store.Reads.{Models}
use configraft.Store.Write
use configraft.Store.Write.{Written, wrote, not_written}
use configraft.Store.RoundTrip.{get-put}
use configraft.StoreOps
use configraft.LocalNode
use configraft.LocalNode.{Local}
use configraft.LocalNode.Interface.{local_node}
use configraft.Service.{ConfigNode, HttpRequest, HttpResponse, method_get, method_post, KvResponse}
use configraft.Service.Rest
use configraft.Service.KvService

-- A write that is answered with OK was done.
finish-wrote :
    (byte_size : Kv → ℕ) (message : Bytes) (out : Written)
    → (Rest.fill_response byte_size (StoreOps.finish message out)).code ≡ ok
    → (rev : Int64) × (kv : Kv) × (out ≡ wrote rev kv)
unfolding Rest.fill_response StoreOps.finish StoreOps.failure
finish-wrote byte_size message (wrote rev kv) h = (rev, kv, refl)
finish-wrote byte_size message not_written h = cc h

-- A response with the record `kv`.
abbrev pub Answers : KvResponse → Kv → Type 0
Answers r kv = (r.code ≡ ok) × (r.kv ≡ some kv)

-- The requests that put and get the key `path`.
abbrev pub post_of : HttpRequest → Bytes → Bytes → HttpRequest
post_of http path body = record http { method = method_post; unresolved_path = path; body = body }

abbrev pub get_of : HttpRequest → Bytes → HttpRequest
get_of http path = record http { method = method_get; unresolved_path = path }

module _ (E : Engine) (laws : EngineLaws E)
    (watch : Local E → Bytes → Int64 → Int64 → Int64 → WatchResult) (byte_size : Kv → ℕ)
    (sized : (kv : Kv) → 0 < kv.revision → 0 < byte_size kv) (node : Local E) (s : State)
    (m : Models E laws node.store s) (c : IsConsistent s) (readable : Readable E node.store)
    (h : s.revision + 1 < 2 ^ 63) where
  abbrev service : ConfigNode
  service = local_node E watch

  abbrev message : Bytes
  message = codes "store write failed"

  abbrev out_of : Bytes → Bytes → E.Db × Written
  out_of key value = Write.put E node.store key value

  do_put_valid :
      (key value : Bytes)
      → Rest.is_valid_key key ≡ true
      → ((KvService.do_put service byte_size node key value).0.store ≡ (out_of key value).0)
        × ((KvService.do_put service byte_size node key value).1
            ≡ Rest.fill_response byte_size (StoreOps.finish message (out_of key value).1))
  unfolding KvService.do_put KvService.apply_response LocalNode.apply StoreOps.apply_cmd_to_store
      StoreOps.apply_put
  do_put_valid key value valid = rw valid (refl, refl)

  wrote-Answers :
      (rev : Int64) (kv : Kv)
      → 0 < kv.revision
      → Answers (Rest.fill_response byte_size (StoreOps.finish message (wrote rev kv))) kv
  unfolding Rest.fill_response StoreOps.finish StoreOps.success
  wrote-Answers rev kv p = (refl, ground (arith, sized kv p))

  hit-Answers :
      (d : Local E) (key : Bytes) (kv : Kv)
      → Store.get E d.store key ≡ hit kv
      → Answers (KvService.do_get service byte_size d key false) kv
  unfolding KvService.do_get LocalNode.get LocalNode.local_get KvService.get_response
  hit-Answers d key kv e = rw e (refl, refl)

  pub put_then_get :
      (key value : Bytes)
      → Rest.is_valid_key key ≡ true
      → (KvService.do_put service byte_size node key value).1.code ≡ ok
      → Readable E (KvService.do_put service byte_size node key value).0.store
      → Answers
          (KvService.do_put service byte_size node key value).1
          (value_record s (s.main key) key value)
        × Answers
            (KvService.do_get service byte_size
              (KvService.do_put service byte_size node key value).0
              key
              false)
            (value_record s (s.main key) key value)
  put_then_get key value valid done ok' =
      let (stored, answer) = do_put_valid key value valid in
      let (rev, kv, out) =
        finish-wrote byte_size message (out_of key value).1
          (ap (λ r. r.code) (sym answer) ∙ done) in
      let (same, found, others) =
        get-put E laws node.store s m c readable h key value rev kv out
          (subst (Readable E) stored ok') in
      let result = KvService.do_put service byte_size node key value in
      let x = value_record s (s.main key) key value in
      (
        subst (λ r. Answers r x)
            (sym (
              answer
              ∙ ap (λ o. Rest.fill_response byte_size (StoreOps.finish message o))
                  (out ∙ ap (wrote rev) same)))
            (wrote-Answers rev x (omega arith)),
        hit-Answers result.0 key x (ap (λ d. Store.get E d key) stored ∙ found ∙ ap hit same),
      )

  module _ (json_put : Bytes → Bytes) (json_cas : Bytes → Bytes × Bytes)
      (json_batch : Bytes → List (Bytes × Bytes)) where
    abbrev kv_rest : Local E → HttpRequest → HttpResponse → Local E × KvResponse × HttpResponse
    kv_rest = KvService.rest service byte_size json_put json_cas json_batch

    rest-do_put :
        (http : HttpRequest) (response : HttpResponse) (path body : Bytes)
        → KvService.ends_with (codes "/cas") path ≡ false
        → bytes_eq path (codes "batch") ≡ false
        → let r = kv_rest node (post_of http path body) response in
          let p = KvService.do_put service byte_size node path (json_put body) in
          (r.0 ≡ p.0) × (r.1 ≡ p.1)
    unfolding KvService.rest KvService.rest_method KvService.rest_post Rest.handle_cors_preflight
        Rest.is_options
    rest-do_put http response path body plain single = rw (plain, single) (refl, refl)

    rest-do_get :
        (d : Local E) (http : HttpRequest) (response : HttpResponse) (path : Bytes)
        → (kv_rest d (get_of http path) response).1
          ≡ KvService.do_get service byte_size d path false
    unfolding KvService.rest KvService.rest_method Rest.handle_cors_preflight Rest.is_options
        KvService.do_get
    rest-do_get d http response path = refl

    -- On a single node whose store is readable and holds a consistent state with revisions left: a
    -- POST of a value to a key that is not empty, does not end in /cas and is not batch, if it is
    -- answered with OK and the store can still be read, is answered with the record of the value,
    -- with the next version of the key and the next revision; and a GET of the key on the node it
    -- leaves is answered with OK and the same record. A message with a revision has a size above 0.
    pub post_then_get :
        (http http' : HttpRequest) (response response' : HttpResponse) (path body : Bytes)
        → Rest.is_valid_key path ≡ true
        → KvService.ends_with (codes "/cas") path ≡ false
        → bytes_eq path (codes "batch") ≡ false
        → let (node', answer, headers) = kv_rest node (post_of http path body) response in
          answer.code ≡ ok
          → Readable E node'.store
          → let kv = value_record s (s.main path) path (json_put body) in
            Answers answer kv × Answers (kv_rest node' (get_of http' path) response').1 kv
    post_then_get http http' response response' path body valid plain single done ok' =
        let (same_node, same_answer) = rest-do_put http response path body plain single in
        let p = KvService.do_put service byte_size node path (json_put body) in
        let kv = value_record s (s.main path) path (json_put body) in
        let (answered, found) =
          put_then_get path (json_put body) valid (ap (λ r. r.code) (sym same_answer) ∙ done)
            (subst (λ (d : Local E). Readable E d.store) same_node ok') in
        let r = kv_rest node (post_of http path body) response in
        (
          subst (λ a. Answers a kv) (sym same_answer) answered,
          subst (λ a. Answers a kv) (sym (rest-do_get r.0 http' response' path))
              (subst (λ d. Answers (KvService.do_get service byte_size d path false) kv)
                (sym same_node) found),
        )
