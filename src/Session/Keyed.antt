-- ===== src/Session/Keyed.antt =====
-- A map beside the list of its keys, as the fold of src/workflows/session-reducer.ts keeps them for
-- messages and tools: what makes the list of the values a faithful record of the map.
use mathlib.Core.Path.{fun_ext}
use pi_workflows.Prelude.{
  Option-cases, ◌∙◌, sym, refl, ◌||◌, ◌==◌, true, map, inr, ap, ◌⊎◌, ◌∷◌, ◌++◌, inl, if◌then◌else◌,
  elem, [], is_some, eq_iff, String, Option, List, Bool-cases, All, ◌≡◌, arith, some, none,
}
use pi_workflows.Session.Step.{update}
use pi_workflows.Session.Fold.{get_all}
use mathlib.Core.Path.{subst}

elem-append :
    (x : String) (xs : List String) (y : String) → elem x (xs ++ y ∷ []) ≡ (elem x xs || y == x)
elem-append x [] y = ground arith
elem-append x (z ∷ xs) y = ground (arith, elem-append x xs y)

module _ {V : Type 0} (key : V → String) (P : V → Type 0) where
  pub record Keyed (order : List String) (entries : String → Option V) : Type 0 where
    pub at_key : (id : String) (v : V) → entries id ≡ some v → key v ≡ id
    pub good : (id : String) (v : V) → entries id ≡ some v → P v
    pub listed : (id : String) (v : V) → entries id ≡ some v → elem id order ≡ true
    pub present : (id : String) → elem id order ≡ true → is_some (entries id) ≡ true

  module _ (order : List String) (entries : String → Option V) (h : Keyed order entries) where
    new_value :
        (v w : V) (j : String)
        → P v
        → update entries (key v) v j ≡ some w
        → ((key v ≡ j) × (v ≡ w)) ⊎ (entries j ≡ some w)
    new_value v w j p e = elim (Bool-cases (key v == j)) [
      | inl same ↦ inl ((eq_iff (key v) j).0 same, ground arith)
      | inr other ↦ inr (ground arith)
    ]

    module _ (v : V) (p : P v) where
      at_key_after : (id : String) (w : V) → update entries (key v) v id ≡ some w → key w ≡ id
      at_key_after id w e = elim (new_value v w id p e) [
        | inl (same, is) ↦ ap key (sym is) ∙ same
        | inr old ↦ h.at_key id w old
      ]

      good_after : (id : String) (w : V) → update entries (key v) v id ≡ some w → P w
      good_after id w e = elim (new_value v w id p e) [
        | inl (same, is) ↦ subst P is p
        | inr old ↦ h.good id w old
      ]

      pub Keyed-replace : elem (key v) order ≡ true → Keyed order (update entries (key v) v)
      Keyed-replace old = record {
        at_key = at_key_after;
        good = good_after;
        listed = λ id w e. elim (new_value v w id p e) [
          | inl (same, is) ↦ subst (λ k. elem k order ≡ true) same old
          | inr before ↦ h.listed id w before
        ];
        present = λ id m. ground (arith, h.present id m);
      }

      pub Keyed-append : Keyed (order ++ key v ∷ []) (update entries (key v) v)
      Keyed-append = record {
        at_key = at_key_after;
        good = good_after;
        listed = λ id w e. elim (new_value v w id p e) [
          | inl (same, is) ↦ ground (arith, elem-append id order (key v), eq_iff (key v) id)
          | inr before ↦ ground (arith, elem-append id order (key v), h.listed id w before)
        ];
        present = λ id m. ground (arith, elem-append id order (key v), h.present id);
      }

  pub Keyed-empty : Keyed [] (λ id. none)
  Keyed-empty = record {
    at_key = λ id v e. absurd (ground arith);
    good = λ id v e. absurd (ground arith);
    listed = λ id v e. absurd (ground arith);
    present = λ id m. ground arith;
  }

module _ {V : Type 0} (key : V → String) where
  unfoldable pub puts : List V → (String → Option V) → String → Option V
  puts [] entries = entries
  puts (v ∷ vs) entries = puts vs (update entries (key v) v)

  puts_lem :
      (whole : String → Option V) (vs : List V)
      → All (λ v. whole (key v) ≡ some v) vs
      → (entries : String → Option V) (j : String)
      → puts vs entries j ≡ (if elem j (map key vs) then whole j else entries j)
  unfolding puts
  puts_lem whole [] a entries j = refl
  puts_lem whole (v ∷ vs) (p, a) entries j =
      ground (arith, puts_lem whole vs a (update entries (key v) v) j, eq_iff (key v) j)

  module _ (P : V → Type 0) (entries : String → Option V) where
    -- The values come in the order of their keys, and each stands at its key.
    pub get_all_lem :
        (ids : List String)
        → ((id : String) (v : V) → entries id ≡ some v → key v ≡ id)
        → ((id : String) (v : V) → entries id ≡ some v → P v)
        → ((id : String) → elem id ids ≡ true → is_some (entries id) ≡ true)
        → (map key (get_all ids entries) ≡ ids)
          × All (λ v. entries (key v) ≡ some v) (get_all ids entries)
          × All P (get_all ids entries)
    unfolding get_all
    get_all_lem [] at good present = (refl, tt, tt)
    get_all_lem (id ∷ ids) at good present =
        let (ks, vs, gs) = get_all_lem ids at good (λ j m. present j (ground arith)) in
        elim (Option-cases (entries id)) [
          | inl absent ↦ absurd (ground (arith, present id, eq_iff id id))
          | inr (v, e) ↦
              let shape : get_all (id ∷ ids) entries ≡ v ∷ get_all ids entries = rw (e, get_all) in
              subst
                (λ (l : List V).
                  (map key l ≡ id ∷ ids) × All (λ w. entries (key w) ≡ some w) l × All P l)
                (sym shape)
                (cc (at id v e, ks), (ap entries (at id v e) ∙ e, vs), (good id v e, gs))
        ]

  -- What is read back from the values is the map.
  pub puts-get_all :
      (P : V → Type 0) (order : List String) (entries : String → Option V)
      → Keyed key P order entries
      → puts (get_all order entries) (λ id. none) ≡ entries
  puts-get_all P order entries h =
      let (ks, vs, gs) = get_all_lem P entries order h.at_key h.good h.present in
      fun_ext (λ j.
        puts_lem entries (get_all order entries) vs (λ id. none) j
        ∙ subst (λ ids. (if elem j ids then entries j else none) ≡ entries j) (sym ks)
            (either j (Option-cases (entries j))))
    where
      either :
          (j : String)
          → (entries j ≡ none) ⊎ ((v : V) × (entries j ≡ some v))
          → (if elem j order then entries j else none) ≡ entries j
      either j (inl absent) = ground arith
      either j (inr (v, e)) = ground (arith, h.listed j v e)
