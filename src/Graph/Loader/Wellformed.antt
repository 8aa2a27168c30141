-- ===== src/Graph/Loader/Wellformed.antt =====
-- Queues and values of a YAML graph, of src/core/graph_config.cpp.
use rk_avp.Prelude.{
  ℕ, zero, suc, ◌<◌, ◌≡◌, false, List, [], ◌∷◌, All, All-map, Option, none, some, String, ◌==◌,
  ◌=?◌, string_keys, arith,
}
use rk_avp.ConfigValue.{ConfigValue, Fields, end}
use rk_avp.Graph.{QueueConfig}
use rk_avp.Graph.Loader.{
  Yaml, AreTrees, Parsed, as_string, as_size, parse_queue, queue_of, parse_policy,
}
use rk_avp.Graph.Loader.Ensures.{
  Ensures, Ends, ensured, returned, thrown, Ensures-if, Ensures-bind, Ensures-bind_end,
  Ensures-return_if, Ends-lift, Ends-gives, Ends-of, Ends-or_default,
}
use rk_avp.Graph.Loader.Values.{parse_value, items_by, fields_by, emplace_field}
use rk_avp.Graph.Loader.Sections.{each, value_at}

abbrev pub IsPositive : QueueConfig → Type 0
IsPositive q = 0 < q.capacity

abbrev pub IsText : String → Type 0
IsText s = (s =? "") ≡ false

pub ruleset loader_rules = (
  Ensures-return_if, Ensures-bind_end, Ensures-if, Ends-or_default, Ends-lift, Ends-gives, ensured,
  returned,
)

queue-IsPositive :
    (c : ℕ) (p : String)
    → (c == 0) ≡ false
    → IsPositive (record { capacity = c; policy = parse_policy p })
queue-IsPositive c p h = ground arith

module _ (y : Yaml) where
  pub Ends-as_string : (n : y.Node) → Ends (as_string y n)
  Ends-as_string n = Ends-lift (y.to_string n)

  pub Ends-as_size : (n : y.Node) → Ends (as_size y n)
  Ends-as_size n = Ends-lift (y.to_size n)

  queue_of-IsPositive :
      (n : y.Node) (d : QueueConfig) (name : String) → Ensures IsPositive (queue_of y n d name)
  queue_of-IsPositive n d name =
      search (loader_rules, Ends-as_string, Ends-as_size, queue-IsPositive) depth 14

  pub parse_queue-IsPositive :
      (o : Option y.Node) (d : QueueConfig) (name : String)
      → IsPositive d
      → Ensures IsPositive (parse_queue y o d name)
  unfolding parse_queue
  parse_queue-IsPositive none d name h = ensured d h
  parse_queue-IsPositive (some n) d name h = queue_of-IsPositive n d name

  pub Ensures-each :
      {A B : Type 0} (P : B → Type 0) (f : A → Parsed B) (xs : List A)
      → ((a : A) → Ensures P (f a))
      → Ensures (All P) (each y f xs)
  Ensures-each P f [] h = ensured [] tt
  Ensures-each P f (x ∷ xs) h = Ensures-bind P (f x) _ (h x) (λ b p.
      Ensures-bind (All P) (each y f xs) _ (Ensures-each P f xs h)
        (λ bs ps. ensured (b ∷ bs) (p, ps)))

  -- Parsing a value ends: its fuel is more than the depth of the node.
  Ends-items :
      (parse : y.Node → Parsed ConfigValue) (ns : List y.Node)
      → All (λ n. Ends (parse n)) ns
      → Ends (items_by y parse ns)
  Ends-items parse [] h = ensured _ tt
  Ends-items parse (n ∷ ns) (e, h) =
      Ensures-bind_end (parse n) _ e
        (λ v. Ensures-bind_end (items_by y parse ns) _ (Ends-items parse ns h) (λ vs. ensured _ tt))

  Ends-fields :
      (parse : y.Node → Parsed ConfigValue) (es : List (y.Node × y.Node)) (fs : Fields)
      → All (λ e. Ends (parse (e.1))) es
      → Ends (fields_by y parse es fs)
  Ends-fields parse [] fs h = ensured fs tt
  Ends-fields parse (e ∷ es) fs (k, h) =
      Ensures-bind_end (as_string y (e.0)) _ (Ends-as_string (e.0)) (λ name.
        Ensures-bind_end (parse (e.1)) _ k (λ v. Ends-fields parse es (emplace_field name v fs) h))

module _ (y : Yaml) (trees : AreTrees y) where
  Ends-parse_value : (fuel : ℕ) (n : y.Node) → y.depth n < fuel → Ends (parse_value y fuel n)
  unfolding parse_value
  Ends-parse_value zero n h = absurd (omega arith)
  Ends-parse_value (suc fuel) n h = Ensures-if (y.is_null n) _ _ (ensured _ tt) (
      Ensures-if (y.is_sequence n) _ _
        (Ensures-bind_end _ _
          (Ends-items y (parse_value y fuel) (y.items n)
            (All-map _ _ (y.items n) (λ m l. Ends-parse_value fuel m (omega arith)) (trees n).0))
          (λ vs. ensured _ tt))
        (Ensures-if (y.is_map n) _ _
          (Ensures-bind_end _ _
            (Ends-fields y (parse_value y fuel) (y.entries n) end (
              All-map _ _ (y.entries n) (λ e l. Ends-parse_value fuel (e.1) (omega arith))
                (trees n).1))
            (λ fs. ensured _ tt))
          (ensured _ tt)))

  pub Ends-value_at : (n : y.Node) → Ends (value_at y n)
  Ends-value_at n = Ends-parse_value (suc (y.depth n)) n (omega arith)
