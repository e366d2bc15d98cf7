-- ===== src/Queue/Next.antt =====
-- Which run claimNextWorkflowRun of src/workflows/queue.ts takes.
use mathlib.Core.List.{Memᴰ}
use pi_workflows.Prelude.{◌&&◌, not, ◌||◌, Option-cases, refl}
use pi_workflows.Queue.{owned_by, is_live, is_final, has_pending_request, Entry}
use pi_workflows.Queue.Store.{earlier, claim_next, is_claimable, comes_before, first_claimable}
use pi_workflows.Prelude.{
  ◌⊎◌, inr, none, inl, [], ◌∷◌, some, Bool-cases, arith, true, false, ◌≡◌, ℕ, String, Option, List,
  Assoc, All,
}
use pi_workflows.Queue.Claims.{claimed, to_run, claim_run}
use mathlib.Core.Path.{subst}

comes_before_refl : (e : Entry) → comes_before e e ≡ true
unfolding comes_before
comes_before_refl e = ground arith

comes_before_trans :
    (a b c : Entry) → comes_before a b ≡ true → comes_before b c ≡ true → comes_before a c ≡ true
unfolding comes_before
comes_before_trans a b c p q = ground arith

comes_before_total : (a b : Entry) → comes_before a b ≡ false → comes_before b a ≡ true
unfolding comes_before
comes_before_total a b p = ground arith

abbrev pub Stored : Entry → Assoc Entry → Type 0
Stored e es = (id : String) × Memᴰ (id, e) es

module _ (project : Option String) (excluded : List String) (runner : String) (now : ℕ) where
  -- The entry is no later than the claimable ones of a list.
  abbrev pub IsFirst : Entry → Assoc Entry → Type 0
  IsFirst e es =
      All
        (λ (p : String × Entry).
          is_claimable project excluded runner now p.1 ≡ true → comes_before e p.1 ≡ true)
        es

  abbrev pub NoneClaimable : Assoc Entry → Type 0
  NoneClaimable es =
      All (λ (p : String × Entry). is_claimable project excluded runner now p.1 ≡ false) es

  -- What first_claimable finds.
  abbrev IsFound : Option Entry → Assoc Entry → Type 0
  IsFound none es = NoneClaimable es
  IsFound (some e) es =
      (is_claimable project excluded runner now e ≡ true) × Stored e es × IsFirst e es

  IsFirst-weaken :
      (a e : Entry) (es : Assoc Entry) → comes_before a e ≡ true → IsFirst e es → IsFirst a es
  IsFirst-weaken a e [] p h = tt
  IsFirst-weaken a e ((id, b) ∷ es) p h =
      ((λ c. comes_before_trans a e b p (h.0 c)), IsFirst-weaken a e es p h.1)

  IsFirst-none : (a : Entry) (es : Assoc Entry) → NoneClaimable es → IsFirst a es
  IsFirst-none a [] h = tt
  IsFirst-none a ((id, b) ∷ es) h = ((λ c. absurd (ground (arith, h.0))), IsFirst-none a es h.1)

  earlier-IsFound :
      (id : String) (e : Entry) (es : Assoc Entry) (rest : Option Entry)
      → is_claimable project excluded runner now e ≡ true
      → IsFound rest es
      → IsFound (earlier e rest) ((id, e) ∷ es)
  earlier-IsFound id e es none c h =
      (c, (id, Memᴰ.head refl), ((λ d. comes_before_refl e), IsFirst-none e es h))
  earlier-IsFound id e es (some f) c (d, (k, m), first) = elim (Bool-cases (comes_before e f)) [
    | inl before ↦
        rw before (
          c,
          (id, Memᴰ.head refl),
          ((λ d. comes_before_refl e), IsFirst-weaken e f es before first),
        )
    | inr after ↦ rw after (d, (k, Memᴰ.tail m), ((λ x. comes_before_total e f after), first))
  ]

  later-IsFound :
      (id : String) (e : Entry) (es : Assoc Entry) (rest : Option Entry)
      → is_claimable project excluded runner now e ≡ false
      → IsFound rest es
      → IsFound rest ((id, e) ∷ es)
  later-IsFound id e es none c h = (c, h)
  later-IsFound id e es (some f) c (d, (k, m), first) =
      (d, (k, Memᴰ.tail m), ((λ x. absurd (ground arith)), first))

  first_claimable-IsFound :
      (es : Assoc Entry) → IsFound (first_claimable project excluded runner now es) es
  unfolding first_claimable
  first_claimable-IsFound [] = tt
  first_claimable-IsFound ((id, e) ∷ es) =
      elim (Bool-cases (is_claimable project excluded runner now e)) [
        | inl c ↦ rw c (earlier-IsFound id e es _ c (first_claimable-IsFound es))
        | inr c ↦ rw c (later-IsFound id e es _ c (first_claimable-IsFound es))
      ]

module _ (token_hash : String → String) where
  not_refused :
      (project : Option String) (excluded : List String) (runner : String) (now : ℕ) (e : Entry)
      → is_claimable project excluded runner now e ≡ true
      → (is_final e.queue.status
          || (not to_run.allow_pending_interaction && has_pending_request e)
          || (is_live e.holder now && not (owned_by e.holder runner)))
        ≡ false
  unfolding is_claimable
  not_refused project excluded runner now e c = ground arith

  claim_run-claimable :
      (project : Option String) (excluded : List String) (runner token : String) (lease_ms now : ℕ)
      (e : Entry)
      → is_claimable project excluded runner now e ≡ true
      → claim_run token_hash runner token lease_ms to_run now e
        ≡ some (claimed token_hash runner token lease_ms to_run now e)
  unfolding claim_run
  claim_run-claimable project excluded runner token lease_ms now e c =
      rw (not_refused project excluded runner now e c, claim_run) refl

  -- claimNextWorkflowRun takes no run only where none is claimable. Else it takes a stored run that
  -- is claimable and that no other claimable one precedes in the order of the query, and returns
  -- it claimed for the runner.
  pub claim_next_lem :
      (project : Option String) (excluded : List String) (runner token : String) (lease_ms now : ℕ)
      (es : Assoc Entry)
      → ((claim_next token_hash project excluded runner token lease_ms now es ≡ none)
          × NoneClaimable project excluded runner now es)
        ⊎ ((e : Entry) × (claim_next token_hash project excluded runner token lease_ms now es
              ≡ some (claimed token_hash runner token lease_ms to_run now e))
            × Stored e es
            × (is_claimable project excluded runner now e ≡ true)
            × IsFirst project excluded runner now e es)
  unfolding claim_next
  claim_next_lem project excluded runner token lease_ms now es =
      let found = first_claimable-IsFound project excluded runner now es in
      elim (Option-cases (first_claimable project excluded runner now es)) [
        | inl nothing ↦ inl (
          rw (nothing, claim_next) refl,
          subst (λ r. IsFound project excluded runner now r es) nothing found,
        )
        | inr (e, one) ↦
            let (c, stored, first) =
              subst (λ r. IsFound project excluded runner now r es) one found in
            inr (
              e,
              rw (one, claim_next)
                  (claim_run-claimable project excluded runner token lease_ms now e c),
              stored,
              c,
              first,
            )
      ]
