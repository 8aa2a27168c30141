-- ===== src/Runner/Starting/Balance.antt =====
-- The calls of the nodes over any sequence of starts and stops of a runner, of
-- src/core/graph_runner.cpp.
use rk_avp.Prelude.{
  ℕ, suc, ◌+◌, ◌≡◌, Bool, true, false, not, List, [], ◌∷◌, ◌++◌, Option, none, some, String,
  if◌then◌else◌, ◌=?◌, string_keys, arith, if_lem, All, All-append, All-map, eq_iff,
}
use rk_avp.Prelude.Maps.{contains, emplace, find-assign}
use rk_avp.Prelude.Counts.{occurrences, occurrences-append}
use rk_avp.Status.{Status, is_ok}
use rk_avp.Node.Contract.{NodeContract}
use rk_avp.Graph.{NodeConfig}
use rk_avp.Runner.Sync.{RuntimeNode}
use rk_avp.Runner.Lifetime.{Lifetime, NodeClasses, Call, configures, opens, closes}
use rk_avp.Runner.Starting.{and_then, new_runtime, add_node, called, create_node, create_nodes}

-- Which calls of a history are of a kind, counted.
unfoldable pub tally : (Call → Bool) → List Call → ℕ
tally p [] = 0
tally p (c ∷ cs) = let n = tally p cs in if p c then suc n else n

pub tally-append :
    (p : Call → Bool) (xs ys : List Call) → tally p (xs ++ ys) ≡ tally p xs + tally p ys
unfolding tally
tally-append p [] ys = omega arith
tally-append p (x ∷ xs) ys = ground (arith, tally-append p xs ys)

abbrev pub configured : String → Call → Bool
configured id (configures other) = id =? other
configured id _ = false

abbrev pub closed : String → Call → Bool
closed id (closes other) = id =? other
closed id _ = false

abbrev pub Nodes : Type 0 → Type 0
Nodes D = List (String × RuntimeNode D)

module _ {D : Type 0} where
  -- Each node that has been configured has been closed, save those in the runner's order, which the
  -- runner has.
  unfoldable pub IsBalanced : List Call → List String → Nodes D → Type 0
  IsBalanced calls order nodes =
      ((id : String) → tally (configured id) calls ≡ tally (closed id) calls + occurrences id order)
      × All (λ id. contains id nodes ≡ true) order

  abbrev pub Balanced : Lifetime D → Type 0
  Balanced l = IsBalanced l.calls l.lifecycle_order l.runner.nodes

  pub and_then_lem :
      (P : Lifetime D → Type 0) (x : Lifetime D × Status) (f : Lifetime D → Lifetime D × Status)
      → P x.0
      → ((l : Lifetime D) → P l → P (f l).0)
      → P (and_then x f).0
  and_then_lem P (l, status) f h g =
      if_lem (λ (x : Lifetime D × Status). P x.0) (is_ok status) (λ o. g l h) (λ o. h)

  pub add_calls :
      (calls more : List Call) (order : List String) (nodes : Nodes D)
      → ((id : String) → tally (configured id) more ≡ tally (closed id) more)
      → IsBalanced calls order nodes
      → IsBalanced (calls ++ more) order nodes
  unfolding IsBalanced
  add_calls calls more order nodes same (h, held) = (
    (λ id. omega (
      arith,
      same id,
      h id,
      tally-append (configured id) calls more,
      tally-append (closed id) calls more,
    )),
    held,
  )

  pub more_nodes :
      (calls : List Call) (order : List String) (nodes nodes' : Nodes D)
      → ((j : String) → contains j nodes ≡ true → contains j nodes' ≡ true)
      → IsBalanced calls order nodes
      → IsBalanced calls order nodes'
  unfolding IsBalanced
  more_nodes calls order nodes nodes' f (h, held) = (h, All-map _ _ order f held)

  contains-emplace :
      (id j : String) (node : RuntimeNode D) (nodes : Nodes D)
      → contains j nodes ≡ true
      → contains j (emplace id node nodes).0 ≡ true
  unfolding contains emplace
  contains-emplace id j node nodes h = ground (arith, h, find-assign id j node nodes, eq_iff id j)

  emplaced :
      (id : String) (node : RuntimeNode D) (nodes : Nodes D)
      → contains id (emplace id node nodes).0 ≡ true
  unfolding contains emplace
  emplaced id node nodes = ground (arith, find-assign id id node nodes, eq_iff id id)

  add_node-Balanced :
      (c : NodeConfig) (contract : NodeContract) (l : Lifetime D)
      → Balanced l
      → Balanced (add_node c contract (called (opens c.id) (called (configures c.id) l)))
  unfolding add_node IsBalanced tally occurrences
  add_node-Balanced c contract l (h, held) = (
    (λ id. ground (
      arith,
      h id,
      tally-append (configured id) (l.calls ++ configures c.id ∷ []) (opens c.id ∷ []),
      tally-append (closed id) (l.calls ++ configures c.id ∷ []) (opens c.id ∷ []),
      tally-append (configured id) l.calls (configures c.id ∷ []),
      tally-append (closed id) l.calls (configures c.id ∷ []),
      occurrences-append id l.lifecycle_order (c.id ∷ []),
    )),
    All-append _ l.lifecycle_order (c.id ∷ [])
        (All-map _ _ l.lifecycle_order
          (λ j. contains-emplace c.id j (new_runtime c contract) l.runner.nodes) held)
        (emplaced c.id (new_runtime c contract) l.runner.nodes, tt),
  )

  configure_failed :
      (id : String) (l : Lifetime D)
      → Balanced l
      → Balanced (called (closes id) (called (configures id) l))
  unfolding IsBalanced tally
  configure_failed id l (h, held) = (
    (λ k. ground (
      arith,
      h k,
      tally-append (configured k) (l.calls ++ configures id ∷ []) (closes id ∷ []),
      tally-append (closed k) (l.calls ++ configures id ∷ []) (closes id ∷ []),
      tally-append (configured k) l.calls (configures id ∷ []),
      tally-append (closed k) l.calls (configures id ∷ []),
    )),
    held,
  )

  open_failed-Balanced :
      (id : String) (l : Lifetime D)
      → Balanced l
      → Balanced (called (closes id) (called (opens id) (called (configures id) l)))
  unfolding IsBalanced tally
  open_failed-Balanced id l (h, held) = (
    (λ k. ground (
      arith,
      h k,
      tally-append (configured k) ((l.calls ++ configures id ∷ []) ++ opens id ∷ [])
          (closes id ∷ []),
      tally-append (closed k) ((l.calls ++ configures id ∷ []) ++ opens id ∷ []) (closes id ∷ []),
      tally-append (configured k) (l.calls ++ configures id ∷ []) (opens id ∷ []),
      tally-append (closed k) (l.calls ++ configures id ∷ []) (opens id ∷ []),
      tally-append (configured k) l.calls (configures id ∷ []),
      tally-append (closed k) l.calls (configures id ∷ []),
    )),
    held,
  )

  create_node-Balanced :
      (classes : NodeClasses D) (c : NodeConfig) (o : Option NodeContract) (l : Lifetime D)
      → Balanced l
      → Balanced (create_node classes c o l).0
  create_node-Balanced classes c none l h = h
  create_node-Balanced classes c (some contract) l h =
      if_lem Goes (not (is_ok (classes.on_configure c.id))) (λ x. configure_failed c.id l h)
        (λ x.
          if_lem Goes (not (is_ok (classes.on_open c.id))) (λ y. open_failed-Balanced c.id l h)
            (λ y. add_node-Balanced c contract l h))
    where
      Goes : Lifetime D × Status → Type 0
      Goes x = Balanced x.0

  pub create_nodes-Balanced :
      (classes : NodeClasses D) (cs : List NodeConfig) (l : Lifetime D)
      → Balanced l
      → Balanced (create_nodes classes cs l).0
  unfolding create_nodes
  create_nodes-Balanced classes [] l h = h
  create_nodes-Balanced classes (c ∷ cs) l h =
      and_then_lem Balanced (create_node classes c (classes.create c.type) l)
        (create_nodes classes cs) (create_node-Balanced classes c (classes.create c.type) l h)
        (create_nodes-Balanced classes cs)
