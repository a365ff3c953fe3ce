-- ===== src/Router/Overlay/Ids.antt =====
-- Which instances a merged group has.
use llm_router_server_dashbo.Base.{
  ℕ, suc, zero, ◌+◌, ◌≡◌, refl, sym, ◌∙◌, ap, String, true, Option, none, some, List, [], ◌∷◌, ◌++◌,
  map, get_elem?, eq_iff, arith, subst, Option-cases, Bool-cases, inl, inr,
}
use mathlib.Core.List.{append-nil, append_assoc}
use llm_router_server_dashbo.Router.Overlay.{
  RawInstance, equal_ids, set_at, idx_by_id, merge_instances,
}

pub equal_ids-eq : (a b : Option String) → equal_ids a b ≡ true → a ≡ b
equal_ids-eq none none h = refl
equal_ids-eq (some a) (some b) h = ap some ((eq_iff a b).0 h)
equal_ids-eq none (some b) h = cc
equal_ids-eq (some a) none h = cc

-- The ids that the index does not have.
unfoldable pub new_ids : (Option String → Option ℕ) → List (Option String) → List (Option String)
new_ids idx [] = []
new_ids idx (i ∷ rest) =
    let later = new_ids idx rest in elim (idx i) [ some n ↦ later | none ↦ i ∷ later ]

-- An index points at an instance with the id.
abbrev IsSound : (Option String → Option ℕ) → List (Option String) → Type 0
IsSound idx xs = (iid : Option String) (n : ℕ) → idx iid ≡ some n → get_elem? xs n ≡ some iid

get_elem?-append :
    (xs ys : List (Option String)) (n : ℕ) {i : Option String}
    → get_elem? xs n ≡ some i
    → get_elem? (xs ++ ys) n ≡ some i
get_elem?-append [] ys n h = cc
get_elem?-append (x ∷ xs) ys zero h = h
get_elem?-append (x ∷ xs) ys (suc n) h = get_elem?-append xs ys n h

module _ {J : Type 0} where
  abbrev pub ids : List (RawInstance J) → List (Option String)
  ids = map (λ i. i.id)

  pub idx_by_id-found :
      (n : ℕ) (xs : List (RawInstance J)) (iid : Option String) (m : ℕ)
      → idx_by_id n xs iid ≡ some m
      → (k : ℕ) × (m ≡ n + k) × (get_elem? (ids xs) k ≡ some iid)
  unfolding idx_by_id
  idx_by_id-found n [] iid m h = cc
  idx_by_id-found n (i ∷ rest) iid m h = elim (Option-cases (idx_by_id (suc n) rest iid)) [
    | inl absent ↦ elim (Bool-cases (equal_ids i.id iid)) [
      | inl same ↦
          let e : some n ≡ some m = rw same at (rw absent at h) in
          let q : n ≡ m = cc in (0, omega arith, ap some (equal_ids-eq i.id iid same))
      | inr other ↦ let e : none ≡ some m = rw other at (rw absent at h) in cc
    ]
    | inr (later, found) ↦
        let (k, at_k, got) = idx_by_id-found (suc n) rest iid later found in
        let e : some later ≡ some m = rw found at h in
        let q : later ≡ m = cc in (suc k, omega arith, got)
  ]

  pub set_at-ids :
      (n : ℕ) (x : RawInstance J) (xs : List (RawInstance J))
      → get_elem? (ids xs) n ≡ some x.id
      → ids (set_at n x xs) ≡ ids xs
  unfolding set_at
  set_at-ids n x [] h = refl
  set_at-ids zero x (y ∷ ys) h = let e : x.id ≡ y.id = cc in ap (λ i. i ∷ ids ys) e
  set_at-ids (suc n) x (y ∷ ys) h = ap (λ l. y.id ∷ l) (set_at-ids n x ys h)

  ids-append : (xs ys : List (RawInstance J)) → ids (xs ++ ys) ≡ ids xs ++ ids ys
  ids-append [] ys = refl
  ids-append (x ∷ xs) ys = ap (λ l. x.id ∷ l) (ids-append xs ys)

  merge_instances-ids_of_sound :
      (idx : Option String → Option ℕ) (insts base : List (RawInstance J))
      → IsSound idx (ids base)
      → ids (merge_instances idx base insts) ≡ ids base ++ new_ids idx (ids insts)
  unfolding merge_instances new_ids
  merge_instances-ids_of_sound idx [] base sound = sym (append-nil (ids base))
  merge_instances-ids_of_sound idx (x ∷ rest) base sound = elim (Option-cases (idx x.id)) [
    | inl absent ↦
        let longer = ids-append base (x ∷ []) in
        let sound' : IsSound idx (ids (base ++ (x ∷ []))) =
          subst (IsSound idx) (sym longer)
            (λ iid n h. get_elem?-append (ids base) (x.id ∷ []) n (sound iid n h)) in
        rw absent (
          merge_instances-ids_of_sound idx rest (base ++ (x ∷ [])) sound'
          ∙ ap (λ l. l ++ new_ids idx (ids rest)) longer
          ∙ append_assoc (ids base) (x.id ∷ []) (new_ids idx (ids rest)))
    | inr (n, found) ↦
        let same = set_at-ids n x base (sound x.id n found) in
        rw found (
          merge_instances-ids_of_sound idx rest (set_at n x base)
            (subst (IsSound idx) (sym same) sound)
          ∙ ap (λ l. l ++ new_ids idx (ids rest)) same)
  ]

  -- A merged group has the base's instances in their order, by id, and behind them the overlay's instances
  -- whose id the base lacks, in theirs: an override changes an instance in its place, and no instance
  -- is lost.
  pub merge_instances-ids :
      (base insts : List (RawInstance J))
      → ids (merge_instances (idx_by_id 0 base) base insts)
        ≡ ids base ++ new_ids (idx_by_id 0 base) (ids insts)
  merge_instances-ids base insts =
      merge_instances-ids_of_sound (idx_by_id 0 base) insts base λ iid n h.
        let (k, at_k, got) = idx_by_id-found 0 base iid n h in
        let q : n ≡ k = omega arith in subst (λ m. get_elem? (ids base) m ≡ some iid) (sym q) got
