-- ===== src/Graph/Search.antt =====
-- The loop of assertAllNodesReachable in src/workflows/graph.ts: what one round keeps, and that the
-- rounds end.
use mathlib.Core.List.{Memᴰ}
use pi_workflows.Prelude.{
  ℕ, zero, suc, ◌+◌, ◌≤◌, String, some, true, false, ◌||◌, List, [], ◌∷◌, ◌++◌, ◌≡◌, ap, ◌⊎◌, inl,
  inr, refl, arith, if◌then◌else◌, ◌==◌, eq_iff, elem, length, length-append, Bool-cases,
}
use pi_workflows.Graph.{
  WorkflowEdge, source, targets, all_targets, Frontier, push_target, push_targets, visit_edge,
  visit_edges, search_from,
}

abbrev pub Has : String → List String → Type 0
Has x xs = elem x xs ≡ true

elem-append : (x : String) (xs ys : List String) → elem x (xs ++ ys) ≡ (elem x xs || elem x ys)
elem-append x [] ys = refl
elem-append x (y ∷ xs) ys = ground (arith, elem-append x xs ys)

-- What a step of the search does to the frontier.
pub record Grows (s t : Frontier) : Type 0 where
  pub keeps : (x : String) → Has x s.reachable → Has x t.reachable
  pub waits : (x : String) → Has x s.queue → Has x t.queue
  pub queued : (x : String) → Has x t.reachable → Has x s.reachable ⊎ Has x t.queue

pub Grows-refl : (s : Frontier) → Grows s s
Grows-refl s = record { keeps = λ x h. h; waits = λ x h. h; queued = λ x h. inl h }

pub Grows-trans : {s t u : Frontier} → Grows s t → Grows t u → Grows s u
Grows-trans p q = record {
  keeps = λ x h. q.keeps x (p.keeps x h);
  waits = λ x h. q.waits x (p.waits x h);
  queued = λ x h. elim (q.queued x h) [
    | inr later ↦ inr later
    | inl before ↦ elim (p.queued x before) [
      | inl first ↦ inl first
      | inr waiting ↦ inr (q.waits x waiting)
    ]
  ];
}

Grows-push_target : (s : Frontier) (t : String) → Grows s (push_target s t)
unfolding push_target
Grows-push_target s t = record {
  keeps = λ x h. ground arith;
  waits = λ x h. ground (arith, elem-append x s.queue (t ∷ []));
  queued = λ x h. ground (arith, elem-append x s.queue (t ∷ []));
}

push_target_self : (s : Frontier) (t : String) → Has t (push_target s t).reachable
unfolding push_target
push_target_self s t = ground (arith, eq_iff t t)

Grows-push_targets : (s : Frontier) (ts : List String) → Grows s (push_targets s ts)
unfolding push_targets
Grows-push_targets s [] = Grows-refl s
Grows-push_targets s (t ∷ ts) =
    Grows-trans (Grows-push_target s t) (Grows-push_targets (push_target s t) ts)

push_targets_self :
    (s : Frontier) (ts : List String) (x : String) → Memᴰ x ts → Has x (push_targets s ts).reachable
unfolding push_targets
push_targets_self s [] x m = elim m [ ]
push_targets_self s (t ∷ ts) x (Memᴰ.head e) =
    (Grows-push_targets (push_target s t) ts).keeps x (ground (arith, push_target_self s t))
push_targets_self s (t ∷ ts) x (Memᴰ.tail m) = push_targets_self (push_target s t) ts x m

Grows-visit_edge : (s : Frontier) (id : String) (e : WorkflowEdge) → Grows s (visit_edge s id e)
unfolding visit_edge
Grows-visit_edge s id e = elim (Bool-cases (source e == id)) [
  | inl same ↦ rw same (Grows-push_targets s (targets e))
  | inr other ↦ rw other (Grows-refl s)
]

pub Grows-visit_edges :
    (s : Frontier) (id : String) (es : List WorkflowEdge) → Grows s (visit_edges s id es)
unfolding visit_edges
Grows-visit_edges s id [] = Grows-refl s
Grows-visit_edges s id (e ∷ es) =
    Grows-trans (Grows-visit_edge s id e) (Grows-visit_edges (visit_edge s id e) id es)

visit_edge_closes :
    (s : Frontier) (id : String) (e : WorkflowEdge) (x : String)
    → source e ≡ id
    → Memᴰ x (targets e)
    → Has x (visit_edge s id e).reachable
unfolding visit_edge
visit_edge_closes s id e x from m =
    rw ((eq_iff (source e) id).1 from) (push_targets_self s (targets e) x m)

-- After a round for `id` the targets of its edges are reachable.
pub visit_edges_closes :
    (s : Frontier) (id : String) (es : List WorkflowEdge) (e : WorkflowEdge) (x : String)
    → Memᴰ e es
    → source e ≡ id
    → Memᴰ x (targets e)
    → Has x (visit_edges s id es).reachable
unfolding visit_edges
visit_edges_closes s id [] e x h from m = elim h [ ]
visit_edges_closes s id (d ∷ es) e x (Memᴰ.head same) from m =
    (Grows-visit_edges (visit_edge s id d) id es).keeps x
      (visit_edge_closes s id d x (rw (← same) from) (rw same at m))
visit_edges_closes s id (d ∷ es) e x (Memᴰ.tail rest) from m =
    visit_edges_closes (visit_edge s id d) id es e x rest from m

-- Whatever holds of the nodes that the search knows and of the targets that it meets, holds after.
pub record Sound (P : String → Type 0) (s : Frontier) : Type 0 where
  pub reached : (x : String) → Has x s.reachable → P x
  pub waiting : (x : String) → Has x s.queue → P x

module _ (P : String → Type 0) where
  at_equal : {x t : String} → t ≡ x → P t → P x
  at_equal e p = rw (← e) p

  pushed :
      (x t : String) (xs : List String)
      → P t
      → ((y : String) → Has y xs → P y)
      → Has x (xs ++ t ∷ [])
      → P x
  pushed x t xs p h m = elim (Bool-cases (elem x xs)) [
    | inl old ↦ h x old
    | inr new ↦ at_equal (ground (arith, elem-append x xs (t ∷ []), eq_iff t x)) p
  ]

  consed :
      (x t : String) (xs : List String)
      → P t
      → ((y : String) → Has y xs → P y)
      → Has x (t ∷ xs)
      → P x
  consed x t xs p h m = elim (Bool-cases (elem x xs)) [
    | inl old ↦ h x old
    | inr new ↦ at_equal (ground (arith, eq_iff t x)) p
  ]

  Sound-push_target : (s : Frontier) (t : String) → P t → Sound P s → Sound P (push_target s t)
  unfolding push_target
  Sound-push_target s t p h = elim (Bool-cases (elem t s.reachable)) [
    | inl old ↦ rw old h
    | inr new ↦ rw new (record {
      reached = λ x m. consed x t s.reachable p h.reached m;
      waiting = λ x m. pushed x t s.queue p h.waiting m;
    })
  ]

  Sound-push_targets :
      (s : Frontier) (ts : List String)
      → ((x : String) → Memᴰ x ts → P x)
      → Sound P s
      → Sound P (push_targets s ts)
  unfolding push_targets
  Sound-push_targets s [] p h = h
  Sound-push_targets s (t ∷ ts) p h =
      Sound-push_targets (push_target s t) ts (λ x m. p x (Memᴰ.tail m))
        (Sound-push_target s t (p t (Memᴰ.head refl)) h)

  Sound-visit_edge :
      (s : Frontier) (id : String) (e : WorkflowEdge)
      → (source e ≡ id → (x : String) → Memᴰ x (targets e) → P x)
      → Sound P s
      → Sound P (visit_edge s id e)
  unfolding visit_edge
  Sound-visit_edge s id e p h = elim (Bool-cases (source e == id)) [
    | inl same ↦ rw same (Sound-push_targets s (targets e) (p ((eq_iff (source e) id).0 same)) h)
    | inr other ↦ rw other h
  ]

  pub Sound-visit_edges :
      (s : Frontier) (id : String) (es : List WorkflowEdge)
      → ((e : WorkflowEdge) → Memᴰ e es → source e ≡ id → (x : String) → Memᴰ x (targets e) → P x)
      → Sound P s
      → Sound P (visit_edges s id es)
  unfolding visit_edges
  Sound-visit_edges s id [] p h = h
  Sound-visit_edges s id (e ∷ es) p h =
      Sound-visit_edges (visit_edge s id e) id es (λ d m. p d (Memᴰ.tail m))
        (Sound-visit_edge s id e (p e (Memᴰ.head refl)) h)

-- The targets that the search has not reached yet, each as often as it is listed.
abbrev pub missing : List String → List String → ℕ
missing [] reachable = 0
missing (t ∷ ts) reachable =
    let rest = missing ts reachable in if elem t reachable then rest else suc rest

missing-cons : (ts r : List String) (x : String) → missing ts (x ∷ r) ≤ missing ts r
missing-cons [] r x = omega arith
missing-cons (t ∷ ts) r x = ground (arith, missing-cons ts r x)

missing-cons-lt :
    (ts r : List String) (x : String)
    → Memᴰ x ts
    → elem x r ≡ false
    → suc (missing ts (x ∷ r)) ≤ missing ts r
missing-cons-lt [] r x m new = elim m [ ]
missing-cons-lt (t ∷ ts) r x (Memᴰ.head e) new =
    ground (arith, eq_iff x t, eq_iff x x, missing-cons ts r x)
missing-cons-lt (t ∷ ts) r x (Memᴰ.tail m) new = ground (arith, missing-cons-lt ts r x m new)

-- What is left to do: the rounds that the queue holds, and those that new targets may add.
abbrev pub work : List String → Frontier → ℕ
work ts s = missing ts s.reachable + length s.queue

work-push_target :
    (ts : List String) (s : Frontier) (t : String)
    → Memᴰ t ts
    → work ts (push_target s t) ≤ work ts s
unfolding push_target
work-push_target ts s t m = elim (Bool-cases (elem t s.reachable)) [
  | inl old ↦ rw old (omega arith)
  | inr new ↦
      rw new (omega (arith, length-append s.queue (t ∷ []), missing-cons-lt ts s.reachable t m new))
]

abbrev pub AllIn : List String → List String → Type 0
AllIn xs ts = (x : String) → Memᴰ x xs → Memᴰ x ts

work-push_targets :
    (ts xs : List String) (s : Frontier) → AllIn xs ts → work ts (push_targets s xs) ≤ work ts s
unfolding push_targets
work-push_targets ts [] s m = omega arith
work-push_targets ts (x ∷ xs) s m = omega (
  arith,
  work-push_target ts s x (m x (Memᴰ.head refl)),
  work-push_targets ts xs (push_target s x) (λ y h. m y (Memᴰ.tail h)),
)

work-visit_edge :
    (ts : List String) (s : Frontier) (id : String) (e : WorkflowEdge)
    → AllIn (targets e) ts
    → work ts (visit_edge s id e) ≤ work ts s
unfolding visit_edge
work-visit_edge ts s id e m = elim (Bool-cases (source e == id)) [
  | inl same ↦ rw same (work-push_targets ts (targets e) s m)
  | inr other ↦ rw other (omega arith)
]

pub Memᴰ-append_left : (x : String) (xs ys : List String) → Memᴰ x xs → Memᴰ x (xs ++ ys)
Memᴰ-append_left x [] ys m = elim m [ ]
Memᴰ-append_left x (y ∷ xs) ys (Memᴰ.head e) = Memᴰ.head e
Memᴰ-append_left x (y ∷ xs) ys (Memᴰ.tail m) = Memᴰ.tail (Memᴰ-append_left x xs ys m)

pub Memᴰ-append_right : (x : String) (xs ys : List String) → Memᴰ x ys → Memᴰ x (xs ++ ys)
Memᴰ-append_right x [] ys m = m
Memᴰ-append_right x (y ∷ xs) ys m = Memᴰ.tail (Memᴰ-append_right x xs ys m)

work-visit_edges :
    (ts : List String) (s : Frontier) (id : String) (es : List WorkflowEdge)
    → AllIn (all_targets es) ts
    → work ts (visit_edges s id es) ≤ work ts s
unfolding visit_edges
work-visit_edges ts s id [] m = omega arith
work-visit_edges ts s id (e ∷ es) m = omega (
  arith,
  work-visit_edge ts s id e (λ x h. m x (Memᴰ-append_left x _ _ h)),
  work-visit_edges ts (visit_edge s id e) id es (λ x h. m x (Memᴰ-append_right x _ _ h)),
)

abbrev pub List-cases : {A : Type 0} (xs : List A) → Type 0
List-cases {A} xs = (xs ≡ []) ⊎ ((x : A) × (rest : List A) × (xs ≡ x ∷ rest))

pub list_cases : {A : Type 0} (xs : List A) → List-cases xs
list_cases [] = inl refl
list_cases (x ∷ xs) = inr (x, xs, refl)

-- A property that each round keeps holds at the end, and the fuel of the work that is left suffices.
module _ (edges : List WorkflowEdge) (P : Frontier → Type 0)
    (round : (s : Frontier) (id : String) (rest : List String)
      → s.queue ≡ id ∷ rest
      → P s
      → P (visit_edges (record s { queue = rest }) id edges)) where
  pub search_from_rule :
      (fuel : ℕ) (s : Frontier)
      → work (all_targets edges) s ≤ fuel
      → P s
      → (t : Frontier) × (search_from fuel edges s ≡ some t.reachable) × P t × (t.queue ≡ [])
  unfolding search_from
  search_from_rule zero s h p = elim (list_cases s.queue) [
    | inl empty ↦ (s, rw (empty, search_from), p, empty)
    | inr (id, rest, e) ↦ absurd (omega (arith, ap length e))
  ]
  search_from_rule (suc fuel) s h p = elim (list_cases s.queue) [
    | inl empty ↦ (s, rw (empty, search_from), p, empty)
    | inr (id, rest, e) ↦
        let next : Frontier = visit_edges (record s { queue = rest }) id edges in
        let less =
          work-visit_edges (all_targets edges) (record s { queue = rest }) id edges (λ x m. m) in
        let (t, ends, kept, empty) =
          search_from_rule fuel next (omega (arith, less, ap length e)) (round s id rest e p) in
        (t, rw (e, search_from) ends, kept, empty)
  ]
