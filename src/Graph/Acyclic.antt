-- ===== src/Graph/Acyclic.antt =====
-- `Graph::ValidateAcyclic` of src/core/graph.cpp: a depth-first search that marks the nodes on the
-- current path as `visiting`. Its depth is bounded by fuel, and `none` means that the fuel ran out.
pub mod Sound
pub mod Complete
pub mod Fuel
use rk_avp.Prelude.{
  ℕ, zero, suc, ◌≡◌, Bool, true, false, List, [], ◌∷◌, Option, none, some, String, ◌=?◌,
  string_keys, if◌then◌else◌,
}
use rk_avp.Prelude.Names.{member, remove}
use rk_avp.Graph.{EdgeConfig}

pub record Marks : Type 0 where
  pub visiting : List String
  pub visited : List String

-- `adjacency[node]`: the targets of the node's edges that are no back edges.
unfoldable pub adjacent : List EdgeConfig → String → List String
adjacent [] n = []
adjacent (e ∷ es) n =
    let later = adjacent es n in
    if e.back_edge then later else if e.from_node =? n then e.to_node ∷ later else later

-- What a loop does after one visit: go on, or stop at the first that fails.
abbrev pub go_on : Option (Bool × Marks) → (Marks → Option (Bool × Marks)) → Option (Bool × Marks)
go_on none later = none
go_on (some (false, m)) later = some (false, m)
go_on (some (true, m)) later = later m

unfoldable pub visit_each :
    (String → Marks → Option (Bool × Marks)) → List String → Marks → Option (Bool × Marks)
visit_each visit_one [] m = some (true, m)
visit_each visit_one (n ∷ ns) m = go_on (visit_one n m) (visit_each visit_one ns)

-- The node is taken off the path when all of its targets were fine.
unfoldable pub leave : String → Option (Bool × Marks) → Option (Bool × Marks)
leave n none = none
leave n (some (false, m)) = some (false, m)
leave n (some (true, m)) =
    some (true, record m { visiting = remove n m.visiting; visited = n ∷ m.visited })

unfoldable pub visit : ℕ → List EdgeConfig → String → Marks → Option (Bool × Marks)
unfolding visit_each leave adjacent member remove
visit zero es n m = none
visit (suc fuel) es n m =
    let inside =
      leave n
        (visit_each (visit fuel es) (adjacent es n) (record m { visiting = n ∷ m.visiting })) in
    if member n m.visiting
    then some (false, m)
    else if member n m.visited
    then some (true, m)
    else inside

abbrev pub name_failed :
    String → Option (Bool × Marks) → (Marks → Option (Option String)) → Option (Option String)
name_failed n none later = none
name_failed n (some (false, m)) later = some (some n)
name_failed n (some (true, m)) later = later m

-- Every node is a root; the first that fails is named.
unfoldable pub visit_roots :
    (String → Marks → Option (Bool × Marks)) → List String → Marks → Option (Option String)
visit_roots visit_one [] m = some none
visit_roots visit_one (n ∷ ns) m = name_failed n (visit_one n m) (visit_roots visit_one ns)

abbrev pub no_marks : Marks
no_marks = record { visiting = []; visited = [] }

-- The node that the search fails at, if any.
unfoldable pub find_cycle : ℕ → List EdgeConfig → List String → Option (Option String)
unfolding visit visit_roots
find_cycle fuel es ns = visit_roots (visit fuel es) ns no_marks

-- `m` can be reached from `n` over one or more forward edges.
pub data Reaches (es : List EdgeConfig) : String → String → Type 0 where
  edge : (n m : String) → member m (adjacent es n) ≡ true → Reaches es n m
  further :
      {n m : String} (k : String)
      → Reaches es n m
      → member k (adjacent es m) ≡ true
      → Reaches es n k
