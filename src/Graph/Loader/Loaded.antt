-- ===== src/Graph/Loader/Loaded.antt =====
-- The graphs that `YamlGraphLoader` of src/core/graph_config.cpp loads, with their subgraphs.
use rk_avp.Prelude.{
  ℕ, zero, suc, ◌<◌, ◌≡◌, ◌≢◌, refl, Bool, true, false, List, [], ◌∷◌, ◌++◌, map, All, All-append,
  Option, none, some, String, ℤ, ◌=?◌, eq_iff, string_keys, if◌then◌else◌, length, Bool-cases, inl,
  inr, arith,
}
use rk_avp.Prelude.Names.{member, missing, missing-cons, missing-nil, missing_mono}
use text.Mathlib.TextLemmas.{append-eq-nil_iff}
use rk_avp.Status
use rk_avp.Status.{Status, Result, pass, fail, ◌+s◌}
use rk_avp.ConfigValue.{Object}
use rk_avp.Graph.{GraphConfig, EdgeConfig}
use rk_avp.Graph.Merge.{merge_subgraph, merge_edge, merge_node}
use rk_avp.Graph.Loader.{Yaml, AreTrees, Thrown, answers, raises, lift, Parsed, gives, exhausted}
use rk_avp.Graph.Loader.Ensures.{
  Ensures, Ends, ensured, returned, thrown, escaped, Ensures-bind, Ensures-bind_end,
  Ensures-return_if, Ends-lift, ensured_value, not_exhausted,
}
use rk_avp.Graph.Loader.Wellformed.{IsPositive, IsText, Ends-as_string, Ends-value_at}
use rk_avp.Graph.Loader.Checked.{IsEdge, parse_edges-IsEdge, Ends-object_or}
use rk_avp.Graph.Loader.Root.{
  Merged, caught, uncaught, within, of_result, Parser, overrides_of, parse_subgraph, subgraphs_by,
  parse_subgraphs, parse_root, load_graph_file,
}
use rk_avp.Graph.Loader.Own.{IsLoaded, OwnLoaded, Ends-needs, parse_own-IsLoaded}

IsText-append : (a b : String) → IsText a → IsText (a +s b)
IsText-append a b h = elim (Bool-cases ((a +s b) =? "")) [
  | inl e ↦
      let both = (append-eq-nil_iff {p = a} {q = b}).0 ((eq_iff (a +s b) "").0 e) in
      ground (arith, h, (eq_iff a "").1 (both.0))
  | inr n ↦ n
]

merged-IsEdge :
    (prefix : String) (es : List EdgeConfig)
    → IsText prefix
    → All IsEdge es
    → All IsEdge (map (merge_edge prefix) es)
merged-IsEdge prefix [] h e = tt
merged-IsEdge prefix (e ∷ es) h ((a, b, c, d, q), k) = (
  (IsText-append prefix ("." +s e.from_node) h, b, IsText-append prefix ("." +s e.to_node) h, d, q),
  merged-IsEdge prefix es h k,
)

merge-IsLoaded :
    (c child : GraphConfig) (id : String) (overrides : Object)
    → IsLoaded c
    → IsLoaded child
    → Ensures IsLoaded (of_result (merge_subgraph c child id overrides))
unfolding merge_subgraph
merge-IsLoaded c child id overrides h k = by_prefix (id =? "") refl
  where
    merged : GraphConfig
    merged = record c {
      nodes = c.nodes ++ map (merge_node id overrides) child.nodes;
      edges = c.edges ++ map (merge_edge id) child.edges;
    }

    by_prefix :
        (b : Bool)
        → (id =? "") ≡ b
        → Ensures IsLoaded (
            of_result (
              if b
              then fail (Status.invalid "parent graph and prefix are required")
              else pass merged))
    by_prefix true e = returned _
    by_prefix false e =
        let (v, w, x, es, edges, i, o, s, f) = h in
        let (_, _, _, _, child_edges, _, _, _, _) = k in
        ensured merged (
          v,
          w,
          x,
          es,
          All-append IsEdge c.edges (map (merge_edge id) child.edges) edges
              (merged-IsEdge id child.edges e child_edges),
          i,
          o,
          s,
          f,
        )

within-IsLoaded :
    (id : String) (m : Parsed GraphConfig) → Ensures IsLoaded m → Ensures IsLoaded (within id m)
within-IsLoaded id _ (ensured c h) = ensured c h
within-IsLoaded id _ (returned s) = returned _
within-IsLoaded id _ (thrown e) = thrown e
within-IsLoaded id _ (escaped e) = escaped e

Ends-uncaught : {A : Type 0} (t : Thrown A) → Ends (uncaught t)
Ends-uncaught (answers a) = ensured a tt
Ends-uncaught (raises e) = escaped e

-- A file that is read.
caught-Reads : {N : Type 0} (t : Thrown N) → Ensures (λ n. t ≡ answers n) (caught (lift t))
caught-Reads (answers n) = ensured n refl
caught-Reads (raises e) = returned _

module _ (y : Yaml) (files : List String) where
  -- The files that can be read are among finitely many.
  abbrev pub AreFiles : Type 0
  AreFiles = (path : String) (n : y.Node) → y.read_file path ≡ answers n → member path files ≡ true

module _ (y : Yaml) (trees : AreTrees y) (files : List String) where
  abbrev ParsesWithin : ℕ → Parser y → Type 0
  ParsesWithin fuel parse =
      (base : String) (root : y.Node) (loading : List String)
      → missing loading files < fuel
      → Ensures IsLoaded (parse base root loading)

  Ends-overrides_of : (o : Option y.Node) → Ends (overrides_of y o)
  Ends-overrides_of none = ensured [] tt
  Ends-overrides_of (some n) =
      Ensures-bind_end _ _ (Ends-value_at y trees n) (λ v. Ends-object_or v _)

  abbrev IsMerged : Merged → Type 0
  IsMerged m = IsLoaded m.config

  subgraph-IsMerged :
      AreFiles y files
      → (fuel : ℕ) (parse : Parser y) (base : String) (loading : List String) (m : Merged)
        (n : y.Node)
      → ParsesWithin fuel parse
      → missing loading files < suc fuel
      → IsMerged m
      → Ensures IsMerged (parse_subgraph y parse base loading m n)
  subgraph-IsMerged finite fuel parse base loading m n p l h =
      Ensures-bind_end _ _ (Ends-lift (y.lookup n "id")) (λ id_node.
        Ensures-bind_end _ _ (Ends-needs y trees id_node _) (λ id_found.
          Ensures-bind_end _ _ (Ends-lift (y.lookup n "file")) (λ file_node.
            Ensures-bind_end _ _ (Ends-needs y trees file_node _) (λ file_found.
              Ensures-bind_end _ _ (Ends-as_string y id_found) (λ id.
                Ensures-bind_end _ _ (Ends-as_string y file_found) (λ file.
                  Ensures-bind_end _ _ (Ends-uncaught (y.canonical (y.join base file))) (λ path.
                    Ensures-return_if _ _ _ (λ (fresh : member path loading ≡ false).
                      Ensures-bind (λ root. y.read_file path ≡ answers root) _ _
                        (caught-Reads (y.read_file path))
                        (λ root reads.
                          Ensures-bind IsLoaded _ _
                            (within-IsLoaded id _ (
                              p (y.parent_path (y.join base file)) root (path ∷ loading) (
                                omega (
                                  arith,
                                  missing-cons path loading files (finite path root reads) fresh,
                                ))))
                            (λ child c.
                              Ensures-bind_end _ _ (Ends-lift (y.lookup n "options")) (λ options.
                                Ensures-bind_end _ _ (Ends-overrides_of options) (λ overrides.
                                  Ensures-bind IsLoaded _ _
                                    (merge-IsLoaded m.config child id overrides h c)
                                    (λ config k. ensured _ k)))))))))))))

  subgraphs-IsMerged :
      AreFiles y files
      → (fuel : ℕ) (parse : Parser y) (base : String) (loading : List String) (ns : List y.Node)
        (m : Merged)
      → ParsesWithin fuel parse
      → missing loading files < suc fuel
      → IsMerged m
      → Ensures IsMerged (subgraphs_by y parse base loading ns m)
  subgraphs-IsMerged finite fuel parse base loading [] m p l h = ensured m h
  subgraphs-IsMerged finite fuel parse base loading (n ∷ ns) m p l h =
      Ensures-bind IsMerged _ _ (subgraph-IsMerged finite fuel parse base loading m n p l h)
        (λ m' h'. subgraphs-IsMerged finite fuel parse base loading ns m' p l h')

  all_subgraphs-IsMerged :
      AreFiles y files
      → (fuel : ℕ) (parse : Parser y) (base : String) (loading : List String) (o : Option y.Node)
        (c : GraphConfig)
      → ParsesWithin fuel parse
      → missing loading files < suc fuel
      → IsLoaded c
      → Ensures IsMerged (parse_subgraphs y parse base loading o c)
  all_subgraphs-IsMerged finite fuel parse base loading none c p l h = ensured _ h
  all_subgraphs-IsMerged finite fuel parse base loading (some n) c p l h =
      Ensures-return_if _ _ _
        (λ _. subgraphs-IsMerged finite fuel parse base loading (y.items n) _ p l h)

  parse_root-IsLoaded :
      AreFiles y files
      → (text_of : ℤ → String) (fuel : ℕ) → ParsesWithin fuel (parse_root y text_of fuel)
  unfolding parse_root
  parse_root-IsLoaded finite text_of zero base root loading l = absurd (omega arith)
  parse_root-IsLoaded finite text_of (suc fuel) base root loading l =
      Ensures-bind OwnLoaded _ _ (parse_own-IsLoaded y trees text_of base root) (λ own h.
        Ensures-bind_end _ _ (Ends-lift (y.lookup (own.1) "subgraphs")) (λ subgraph_node.
          Ensures-bind IsMerged _ _
            (all_subgraphs-IsMerged finite fuel (parse_root y text_of fuel) base loading
              subgraph_node (own.0) (parse_root-IsLoaded finite text_of fuel) l h)
            (λ merged k. Ensures-bind_end _ _ (Ends-lift (y.lookup (own.1) "edges")) (λ edge_node.
              Ensures-bind (All IsEdge) _ _
                (parse_edges-IsEdge y trees merged.input_aliases merged.output_aliases
                  merged.config.flow_control.edge_queue edge_node (flow_of merged.config k))
                (λ edges e. ensured _ (with_edges merged.config edges k e))))))
    where
      flow_of : (c : GraphConfig) → IsLoaded c → IsPositive c.flow_control.edge_queue
      flow_of c (_, _, _, _, _, _, _, _, f) = f.1

      with_edges :
          (c : GraphConfig) (edges : List EdgeConfig)
          → IsLoaded c
          → All IsEdge edges
          → IsLoaded (record c { edges = c.edges ++ edges })
      with_edges c edges (v, w, x, es, old, i, o, s, f) e =
          (v, w, x, es, All-append IsEdge c.edges edges old e, i, o, s, f)

  -- Where every YAML node is a finite tree, so that no alias stands inside the node that it names, and
  -- the files that can be read are finitely many, as much fuel as there are files, and one more, is
  -- enough to load a file with all its subgraphs, however they include one another; and a
  -- configuration that is loaded has version 1 or 2, an executor at least, names, threads and
  -- queues of every executor, endpoints of both parts, queues with room on every edge and port, and
  -- source slots whose template names an output.
  pub load_graph_file-IsLoaded :
      AreFiles y files
      → (text_of : ℤ → String) (path : String)
      → (load_graph_file y text_of (suc (length files)) path ≢ exhausted)
        × ((c : GraphConfig)
            → load_graph_file y text_of (suc (length files)) path ≡ gives c
            → IsLoaded c)
  unfolding load_graph_file
  load_graph_file-IsLoaded finite text_of path =
      (not_exhausted _ ensures, λ c e. ensured_value _ c ensures e)
    where
      ensures : Ensures IsLoaded (load_graph_file y text_of (suc (length files)) path)
      ensures = Ensures-bind_end _ _ (Ends-uncaught (y.canonical path)) (λ canonical_path.
          Ensures-bind_end _ _ (Ends-lift (y.read_file path)) (λ root.
            parse_root-IsLoaded finite text_of (suc (length files)) (y.parent_path path) root
              (canonical_path ∷ [])
              (omega (arith, missing_mono canonical_path [] files, missing-nil files))))
