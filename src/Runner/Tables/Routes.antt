-- ===== src/Runner/Tables/Routes.antt =====
-- Which edges and which graph outputs an endpoint leads to, of src/core/graph_runner.cpp.
use text.Mathlib.TextEquality.{eq_iff}
use mathlib.Core.List.{append-nil}
use rk_avp.Prelude.{
  ℕ, zero, suc, ◌≡◌, refl, Bool, false, List, [], ◌∷◌, ◌++◌, map, Option, none, some, String, ◌==◌,
  if◌then◌else◌, ◌=?◌, string_keys, length, get_elem?, arith, ap, append-snoc, sym,
}
use rk_avp.Prelude.Maps.{find, assign, find-assign}
use rk_avp.Prelude.Counts.{count, count-append, as_number}
use rk_avp.Graph.{EdgeConfig}
use rk_avp.Runner.Edges.{edge_stream}
use rk_avp.Runner.Observers.{ids_of}
use rk_avp.Runner.Tables.{new_edge, build_edges}

get_elem?-snoc {ℓ} :
    {A : Type ℓ} (xs : List A) (x : A) (i : ℕ)
    → get_elem? (xs ++ x ∷ []) i ≡ (if length xs == i then some x else get_elem? xs i)
get_elem?-snoc [] x zero = refl
get_elem?-snoc [] x (suc i) = ground arith
get_elem?-snoc (y ∷ xs) x zero = ground arith
get_elem?-snoc (y ∷ xs) x (suc i) = ground (arith, get_elem?-snoc xs x i)

abbrev leaves : String → Option EdgeConfig → Bool
leaves endpoint none = false
leaves endpoint (some c) = edge_stream c =? endpoint

-- An endpoint leads once to each edge that leaves it, and to nothing else.
unfoldable pub AreRoutes : List EdgeConfig → List (String × List ℕ) → Type 0
AreRoutes cs routes =
    (endpoint : String) (i : ℕ)
    → count i (ids_of (find endpoint routes)) ≡ as_number (leaves endpoint (get_elem? cs i))

get_elem?-length {ℓ} : {A : Type ℓ} (xs : List A) → get_elem? xs (length xs) ≡ none
get_elem?-length [] = refl
get_elem?-length (x ∷ xs) = get_elem?-length xs

no_routes-AreRoutes : AreRoutes [] []
unfolding AreRoutes count find
no_routes-AreRoutes endpoint i = refl

add_route-AreRoutes :
    (cs : List EdgeConfig) (c : EdgeConfig) (routes : List (String × List ℕ))
    → AreRoutes cs routes
    → AreRoutes
        (cs ++ c ∷ [])
        (assign (edge_stream c) (ids_of (find (edge_stream c) routes) ++ length cs ∷ []) routes)
unfolding AreRoutes count
add_route-AreRoutes cs c routes h endpoint i = ground (
  arith,
  get_elem?-snoc cs c i,
  find-assign (edge_stream c) endpoint (ids_of (find (edge_stream c) routes) ++ length cs ∷ [])
      routes,
  count-append i (ids_of (find (edge_stream c) routes)) (length cs ∷ []),
  h endpoint i,
  eq_iff (edge_stream c) endpoint,
  get_elem?-length cs,
)

map-snoc {ℓ κ} :
    {A : Type ℓ} {B : Type κ} (f : A → B) (xs : List A) (x : A)
    → map f xs ++ f x ∷ [] ≡ map f (xs ++ x ∷ [])
map-snoc f [] x = refl
map-snoc f (y ∷ xs) x = ap (λ l. f y ∷ l) (map-snoc f xs x)

length-map {ℓ κ} :
    {A : Type ℓ} {B : Type κ} (f : A → B) (xs : List A) → length (map f xs) ≡ length xs
length-map f [] = refl
length-map f (x ∷ xs) = ap suc (length-map f xs)

module _ {D : Type 0} where
  build_edges-AreRoutes :
      (cs done : List EdgeConfig) (routes : List (String × List ℕ))
      → AreRoutes done routes
      → let (edges, routes') = build_edges {D = D} cs (map new_edge done) routes in
        (edges ≡ map new_edge (done ++ cs)) × AreRoutes (done ++ cs) routes'
  unfolding build_edges
  build_edges-AreRoutes [] done routes h = rw (append-nil done) (refl, h)
  build_edges-AreRoutes (c ∷ cs) done routes h =
      let route = ids_of (find (edge_stream c) routes) in
      let routes' = assign (edge_stream c) (route ++ length done ∷ []) routes in
      rw (build_edges, map-snoc (new_edge {D = D}) done c)
        (rw (length-map (new_edge {D = D}) done) (
          rw (sym (append-snoc done c cs)) (
            build_edges-AreRoutes cs (done ++ c ∷ []) routes'
              (add_route-AreRoutes done c routes h))))

  -- `Start` builds a runtime for each edge in order, and an endpoint leads once to each edge that
  -- leaves it and to nothing else.
  pub build_edges_lem :
      (cs : List EdgeConfig)
      → let (edges, routes) = build_edges {D = D} cs [] [] in
        (edges ≡ map new_edge cs) × AreRoutes cs routes
  build_edges_lem cs = build_edges-AreRoutes cs [] [] no_routes-AreRoutes
