-- ===== src/Service/Origins.antt =====
-- The origins that a response names: src/server/rest_util.h.
use configraft.Base.{
  ℕ, ◌≡◌, refl, ap, ap₂, ◌∙◌, false, Option, none, some, [], ◌∷◌, ◌++◌, ◌==◌, arith, All,
}
use configraft.Base.Bytes.{Bytes, codes, bytes_eq, starts_with}
use configraft.Service.Rest

-- A text without colons.
abbrev pub NoColon : Bytes → Type 0
NoColon s = All (λ c. (c == b':') ≡ false) s

before_last-NoColon : (s : Bytes) → NoColon s → Rest.before_last b':' s ≡ none
unfolding Rest.before_last
before_last-NoColon [] h = refl
before_last-NoColon (c ∷ s) (h, hs) = ground (arith, before_last-NoColon s hs)

before_last-append :
    (host port : Bytes) → NoColon port → Rest.before_last b':' (host ++ (b':' ∷ port)) ≡ some host
unfolding Rest.before_last
before_last-append [] port h = ground (arith, before_last-NoColon port h)
before_last-append (c ∷ host) port h = ground (arith, before_last-append host port h)

-- A text as what stands before its last colon and behind it, or without colons.
abbrev pub with_port : Bytes → Option Bytes → Bytes
with_port host none = host
with_port host (some port) = host ++ (b':' ∷ port)

abbrev pub IsHost : Bytes → Option Bytes → Type 0
IsHost host none = NoColon host
IsHost host (some port) = NoColon port

cut_port-with_port :
    (host : Bytes) (port : Option Bytes)
    → IsHost host port
    → Rest.cut_port (with_port host port) ≡ host
unfolding Rest.cut_port
cut_port-with_port host none h = ground (arith, before_last-NoColon host h)
cut_port-with_port host (some port) h = ground (arith, before_last-append host port h)

abbrev separator : Bytes
separator = codes "://"

starts_with-NoColon :
    (c : ℕ) (s : Bytes) → (c == b':') ≡ false → starts_with separator (c ∷ s) ≡ false
unfolding starts_with
starts_with-NoColon c s h = ground arith

after_first-append :
    (scheme rest : Bytes)
    → NoColon scheme
    → Rest.after_first separator (scheme ++ (separator ++ rest)) ≡ some rest
unfolding Rest.after_first starts_with
after_first-append [] rest h = refl
after_first-append (c ∷ scheme) rest (h, hs) = ground (
  arith,
  after_first-append scheme rest hs,
  starts_with-NoColon c (scheme ++ (separator ++ rest)) h,
)

-- A request to the host text `target` comes from `scheme://` and another host text; what stands behind
-- the last colon of either, if it has one, is cut off as its port. The response names the origin
-- exactly if what is left of both is the same. So hosts are compared without their ports; of a host
-- in brackets that comes without a port, the last group is cut off too. The scheme has no colon, and
-- neither it nor the target is empty.
pub is_allowed_origin-with_port :
    (c d : ℕ) (scheme host host' target : Bytes) (port port' : Option Bytes)
    → NoColon (c ∷ scheme)
    → IsHost host port
    → IsHost host' port'
    → d ∷ target ≡ with_port host' port'
    → Rest.is_allowed_origin (c ∷ (scheme ++ (separator ++ with_port host port))) (d ∷ target)
      ≡ bytes_eq host host'
unfolding Rest.is_allowed_origin Rest.is_same_host
is_allowed_origin-with_port c d scheme host host' target port port' hs h h' e =
    ap (λ o. Rest.is_same_host o (d ∷ target))
      (after_first-append (c ∷ scheme) (with_port host port) hs)
    ∙ ap (λ t. bytes_eq (Rest.cut_port (with_port host port)) (Rest.cut_port t)) e
    ∙ ap₂ bytes_eq (cut_port-with_port host port h) (cut_port-with_port host' port' h')
