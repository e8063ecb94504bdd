-- ===== src/Web/Routes.antt =====
-- bridge/dashboard/api.py: the requests that only read.
use tg_bale_bridge.Prelude.{
  if◌then◌else◌, Text, codes, text_eq, text_eq→eq, starts_with, ℕ, ◌≡◌, refl, ap, ◌⊎◌, inl, inr,
  Bool, true, false, Option, none, some, [], ◌∷◌, ◌++◌, arith,
}
use tg_bale_bridge.Web.Api.{
  Method, get, post, patch, delete, other_method, Route, index, status, pairs, logs, pair_segment,
  only, pair_route, pairs_route, route_of, changes,
}

-- The routes that only read.
abbrev is_read : Route → Bool
is_read index = true
is_read status = true
is_read pairs = true
is_read logs = true
is_read _ = false

abbrev pub reads_only : ℕ ⊎ Route → Bool
reads_only (inl n) = true
reads_only (inr r) = is_read r

pair_route-reads :
    (m : Method) (o : Option Text) → changes m ≡ false → reads_only (pair_route m o) ≡ true
pair_route-reads m none h = refl
pair_route-reads get (some t) h = refl
pair_route-reads other_method (some t) h = refl
pair_route-reads post (some t) h = refl
pair_route-reads patch (some t) h = cc
pair_route-reads delete (some t) h = cc

reads-if :
    (b : Bool) (x y : ℕ ⊎ Route)
    → reads_only x ≡ true
    → reads_only y ≡ true
    → reads_only (if b then x else y) ≡ true
reads-if true x y hx hy = hx
reads-if false x y hx hy = hy

only-post-reads : (m : Method) (r : Route) → changes m ≡ false → reads_only (only m post r) ≡ true
only-post-reads get r h = refl
only-post-reads other_method r h = refl
only-post-reads post r h = cc
only-post-reads patch r h = cc
only-post-reads delete r h = cc

only-get-reads : (m : Method) (r : Route) → is_read r ≡ true → reads_only (only m get r) ≡ true
only-get-reads get r h = h
only-get-reads post r h = refl
only-get-reads patch r h = refl
only-get-reads delete r h = refl
only-get-reads other_method r h = refl

pairs_route-reads : (m : Method) → changes m ≡ false → reads_only (pairs_route m) ≡ true
pairs_route-reads get h = refl
pairs_route-reads other_method h = refl
pairs_route-reads patch h = refl
pairs_route-reads delete h = refl
pairs_route-reads post h = cc

pub route_of-reads :
    (m : Method) (path : Text) → changes m ≡ false → reads_only (route_of m path) ≡ true
unfolding route_of
route_of-reads m path h =
    search (reads-if, only-get-reads, only-post-reads, pairs_route-reads, pair_route-reads) depth 16

reads-unless :
    (b : Bool) (x y : ℕ ⊎ Route)
    → b ≡ false
    → reads_only y ≡ true
    → reads_only (if b then x else y) ≡ true
reads-unless true x y h hy = cc
reads-unless false x y h hy = hy

starts_with-shorter : (t p q : Text) → starts_with t (p ++ q) ≡ true → starts_with t p ≡ true
unfolding starts_with
starts_with-shorter t [] q h = refl
starts_with-shorter [] (c ∷ p) q h = cc
starts_with-shorter (d ∷ t) (c ∷ p) q h = ground (arith, starts_with-shorter t p q)

abbrev IsOutside : Text → Type 0
IsOutside path = starts_with path (codes "/api") ≡ false

-- A path outside of the interface is no path of it.
no_api_path :
    (path k : Text) → IsOutside path → starts_with k (codes "/api") ≡ true → text_eq path k ≡ false
no_api_path path k h hk =
    ground (arith, text_eq→eq path k, λ (e : path ≡ k). ap (λ t. starts_with t (codes "/api")) e)

pair_segment-none : (path : Text) → IsOutside path → pair_segment path ≡ none
unfolding pair_segment
pair_segment-none path h = ground (arith, starts_with-shorter path (codes "/api") (codes "/pairs/"))

outside_pair-reads :
    (m : Method) (path : Text)
    → IsOutside path
    → reads_only (pair_route m (pair_segment path)) ≡ true
outside_pair-reads m path h = rw (pair_segment-none path h)

reads-index :
    (b : Bool) (m : Method) (y : ℕ ⊎ Route)
    → reads_only y ≡ true
    → reads_only (if b then only m get index else y) ≡ true
reads-index b m y h = reads-if b _ y (only-get-reads m index refl) h

pub route_of-open :
    (m : Method) (path : Text) → IsOutside path → reads_only (route_of m path) ≡ true
unfolding route_of starts_with
route_of-open m path h =
    search (reads-index, reads-unless, no_api_path path, outside_pair-reads) depth 16
