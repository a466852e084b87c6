-- ===== src/Service/Paths.antt =====
-- The files that the dashboard of src/server/dashboard_service_impl.cpp reads.
use configraft.Base.{
  ◌≡◌, ◌≢◌, refl, ap, Bool, true, false, ◌||◌, Option, [], ◌∷◌, ◌++◌, arith, Bool-cases, inl, inr,
}
use configraft.Base.Bytes.{Bytes, codes, starts_with, starts_with-append}
use configraft.Service.{
  HttpMethod, method_get, method_post, method_delete, method_options, method_other, HttpResponse,
}
use configraft.Service.Dashboard

contains_front : (p b : Bytes) → Dashboard.contains p (p ++ b) ≡ true
unfolding Dashboard.contains starts_with
contains_front [] [] = refl
contains_front [] (c ∷ b) = refl
contains_front (x ∷ p) b = rw (starts_with-append (x ∷ p) b)

contains-append : (p a b : Bytes) → Dashboard.contains p (a ++ (p ++ b)) ≡ true
unfolding Dashboard.contains
contains-append p [] b = contains_front p b
contains-append p (c ∷ a) b = ground (arith, contains-append p a b)

-- A name below a directory: not empty, not absolute, and without two dots in a row.
pub record IsBelow (path : Bytes) : Type 0 where
  pub named : path ≢ []
  pub relative : (s : Bytes) → path ≢ b'/' ∷ s
  pub no_climb : (a b : Bytes) → path ≢ a ++ (codes ".." ++ b)

requested_ne_nil : (path : Bytes) → Dashboard.requested path ≢ []
unfolding Dashboard.requested
requested_ne_nil [] e = cc e
requested_ne_nil (c ∷ path) e = cc e

slash_front : (s : Bytes) → starts_with (codes "/") (b'/' ∷ s) ≡ true
unfolding starts_with
slash_front s = refl

either_true : (a b : Bool) → (a || b) ≡ false → (a ≡ false) × (b ≡ false)
either_true a b h = ground arith

allowed-IsBelow :
    (path : Bytes)
    → Dashboard.is_refused (Dashboard.requested path) ≡ false
    → IsBelow (Dashboard.requested path)
unfolding Dashboard.is_refused
allowed-IsBelow path h =
    let p = Dashboard.requested path in
    let (no_slash, no_dots) =
      either_true (starts_with (codes "/") p) (Dashboard.contains (codes "..") p) h in
    record {
      named = requested_ne_nil path;
      relative = λ s e. cc (slash_front s, ap (starts_with (codes "/")) e, no_slash);
      no_climb = λ a b e.
          cc (contains-append (codes "..") a b, ap (Dashboard.contains (codes "..")) e, no_dots);
    }

-- The page is served from the files below the directory alone: two file systems that agree on every
-- path below it, which is not empty, does not begin with a slash and nowhere has two dots in a row,
-- give the same response to every request.
pub dashboard-IsBelow :
    (read read' : Bytes → Option Bytes) (web_dir : Bytes) (method : HttpMethod) (path : Bytes)
    (response : HttpResponse)
    → ((p : Bytes) → IsBelow p → read (web_dir ++ (b'/' ∷ p)) ≡ read' (web_dir ++ (b'/' ∷ p)))
    → Dashboard.dashboard read web_dir method path response
      ≡ Dashboard.dashboard read' web_dir method path response
unfolding Dashboard.dashboard Dashboard.dashboard_get Dashboard.serve
dashboard-IsBelow read read' web_dir method_get path response h =
    elim (Bool-cases (Dashboard.is_refused (Dashboard.requested path))) [
      | inl q ↦ rw q refl
      | inr q ↦ rw q (
          ap (λ o. Dashboard.deliver o (Dashboard.requested path) response)
            (h (Dashboard.requested path) (allowed-IsBelow path q)))
    ]
dashboard-IsBelow read read' web_dir method_post path response h = refl
dashboard-IsBelow read read' web_dir method_delete path response h = refl
dashboard-IsBelow read read' web_dir method_options path response h = refl
dashboard-IsBelow read read' web_dir method_other path response h = refl
