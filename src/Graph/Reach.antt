-- ===== src/Graph/Reach.antt =====
-- assertAllNodesReachable in src/workflows/graph.ts against the paths of the graph.
use mathlib.Core.List.{Memᴰ}
use pi_workflows.Prelude.{
  sym, ◌∙◌, true, ◌↔◌, elem, ◌≤◌, some, ok, ◌+◌, has, keys, [], String, List, ◌∷◌, ◌≡◌, ◌⊎◌, inl,
  inr, refl, arith, eq_iff,
}
use pi_workflows.Graph.{
  all_targets, size, WorkflowDefinition, reachable_nodes, missing_from, assert_all_nodes_reachable,
  WorkflowEdge, source, targets, Frontier, visit_edges,
}
use pi_workflows.Graph.Search.{
  list_cases, search_from_rule, missing, Has, Grows, Grows-visit_edges, visit_edges_closes, Sound,
  Sound-visit_edges,
}

-- A path along the edges, each switch case being one.
pub data Leads (edges : List WorkflowEdge) (start : String) : String → Type 0 where
  here : Leads edges start start
  next :
      {u v : String} (e : WorkflowEdge)
      → Leads edges start u
      → Memᴰ e edges
      → source e ≡ u
      → Memᴰ v (targets e)
      → Leads edges start v

module _ (edges : List WorkflowEdge) (start : String) where
  -- What holds between two rounds.
  pub record IsFrontier (s : Frontier) : Type 0 where
    pub started : Has start s.reachable
    pub sound : Sound (Leads edges start) s
    pub closed :
        (e : WorkflowEdge) (x : String)
        → Memᴰ e edges
        → Has (source e) s.reachable
        → Memᴰ x (targets e)
        → Has x s.reachable ⊎ Has (source e) s.queue

  round-IsFrontier :
      (s : Frontier) (id : String) (rest : List String)
      → s.queue ≡ id ∷ rest
      → IsFrontier s
      → IsFrontier (visit_edges (record s { queue = rest }) id edges)
  round-IsFrontier s id rest e h = record {
    started = grown.keeps start h.started;
    sound =
        Sound-visit_edges (Leads edges start) popped id edges
          (λ d m from x t. next d (h.sound.waiting id (in_queue id (inl refl))) m from t)
          (record {
            reached = h.sound.reached;
            waiting = λ x m. h.sound.waiting x (in_queue x (inr m));
          });
    closed = λ d x m from t. closes d x m t (grown.queued (source d) from);
  }
    where
      popped : Frontier
      popped = record s { queue = rest }

      grown : Grows popped (visit_edges popped id edges)
      grown = Grows-visit_edges popped id edges

      in_queue : (x : String) → (id ≡ x) ⊎ Has x rest → Has x s.queue
      in_queue x (inl same) = rw e (ground (arith, eq_iff id x))
      in_queue x (inr later) = rw e (ground arith)

      split_queue : (x : String) → Has x s.queue → (x ≡ id) ⊎ Has x rest
      split_queue x m = ground (arith, eq_iff id x, e)

      closes :
          (d : WorkflowEdge) (x : String)
          → Memᴰ d edges
          → Memᴰ x (targets d)
          → Has (source d) popped.reachable ⊎ Has (source d) (visit_edges popped id edges).queue
          → Has x (visit_edges popped id edges).reachable
            ⊎ Has (source d) (visit_edges popped id edges).queue
      closes d x m t (inr waits) = inr waits
      closes d x m t (inl old) = elim (h.closed d x m old t) [
        | inl reached ↦ inl (grown.keeps x reached)
        | inr queued ↦ elim (split_queue (source d) queued) [
          | inl same ↦ inl (visit_edges_closes popped id edges d x m same t)
          | inr later ↦ inr (grown.waits (source d) later)
        ]
      ]

  -- With an empty queue every node that a path leads to has been reached.
  reached_all :
      {v : String} (s : Frontier)
      → IsFrontier s
      → s.queue ≡ []
      → Leads edges start v
      → Has v s.reachable
  reached_all s h empty here = h.started
  reached_all s h empty (next {v = v} e path m from t) =
      let before = reached_all s h empty path in
      elim (h.closed e v m (rw from before) t) [ inl reached ↦ reached | inr queued ↦ ground arith ]

  start-IsFrontier : IsFrontier (record { reachable = start ∷ []; queue = start ∷ [] })
  start-IsFrontier = record {
    started = ground (arith, eq_iff start start);
    sound = record { reached = λ x m. only x m; waiting = λ x m. only x m };
    closed = λ e x m from t. inr from;
  }
    where
      at : {x : String} → start ≡ x → Leads edges start x
      at e = rw (← e) here

      only : (x : String) → Has x (start ∷ []) → Leads edges start x
      only x m = at (ground (arith, eq_iff start x))

work-start : (ts : List String) (x : String) → missing ts (x ∷ []) + 1 ≤ size ts
work-start [] x = omega arith
work-start (t ∷ ts) x = ground (arith, work-start ts x)

-- The loop ends within its fuel, and it has found just the nodes that a path leads to.
pub reachable_nodes_lem :
    (w : WorkflowDefinition)
    → (found : List String) × (reachable_nodes w ≡ some found)
      × ((id : String) → Has id found ↔ Leads w.edges w.start_at id)
unfolding reachable_nodes
reachable_nodes_lem w =
    let (t, ends, h, empty) =
      search_from_rule w.edges (IsFrontier w.edges w.start_at) (round-IsFrontier w.edges w.start_at)
        (size (all_targets w.edges))
        (record { reachable = w.start_at ∷ []; queue = w.start_at ∷ [] })
        (work-start (all_targets w.edges) w.start_at) (start-IsFrontier w.edges w.start_at) in
    (t.reachable, ends, λ id. (h.sound.reached id, reached_all w.edges w.start_at t h empty))

missing_from-none :
    (found ids : List String) (id : String)
    → missing_from found ids ≡ []
    → Has id ids
    → Has id found
unfolding missing_from
missing_from-none found [] id h m = ground arith
missing_from-none found (x ∷ ids) id h m =
    ground (arith, eq_iff x id, missing_from-none found ids id)

missing_from-nil :
    (found ids : List String)
    → ((id : String) → Has id ids → Has id found)
    → missing_from found ids ≡ []
unfolding missing_from
missing_from-nil found [] h = refl
missing_from-nil found (x ∷ ids) h =
    rw (h x (ground (arith, eq_iff x x))) (missing_from-nil found ids (λ id m. h id (ground arith)))

elem-keys : {V : Type 0} (id : String) (m : List (String × V)) → elem id (keys m) ≡ has id m
unfolding keys has
elem-keys id [] = refl
elem-keys id ((j, v) ∷ m) = ground (arith, elem-keys id m)

-- The check accepts a definition exactly when each of its nodes is at the end of a path from the
-- start node along edges and switch cases; it always ends.
pub assert_all_nodes_reachable_iff :
    (w : WorkflowDefinition)
    → (assert_all_nodes_reachable w ≡ ok tt)
      ↔ ((id : String) → has id w.nodes ≡ true → Leads w.edges w.start_at id)
unfolding assert_all_nodes_reachable
assert_all_nodes_reachable_iff w =
    let (found, e, finds) = reachable_nodes_lem w in
    elim (list_cases (missing_from found (keys w.nodes))) [
      | inl full ↦ (
        λ _ id m.
            (finds id).0
              (missing_from-none found (keys w.nodes) id full (elem-keys id w.nodes ∙ m)),
        λ _. rw (e, full, assert_all_nodes_reachable),
      )
      | inr (x, rest, absent) ↦ (
        λ accepted. cc (rw (e, absent, assert_all_nodes_reachable) at accepted),
        λ every. cc (
          absent,
          missing_from-nil found (keys w.nodes)
              (λ id m. (finds id).1 (every id (sym (elem-keys id w.nodes) ∙ m))),
        ),
      )
    ]
