-- ===== src/Router/Overlay/Bodies.antt =====
-- What the instances of a merged group are, by id.
use llm_router_server_dashbo.Base.{
  ℕ, suc, zero, ◌+◌, ◌≡◌, refl, sym, ◌∙◌, ap, subst, String, false, Option, none, some, List, [],
  ◌∷◌, ◌++◌, if◌then◌else◌, arith, Option-cases, Bool-cases, inl, inr, get_elem?,
}
use llm_router_server_dashbo.Router.Overlay.{
  RawInstance, equal_ids, later_or, set_at, idx_by_id, place_instance, merge_instances,
}
use llm_router_server_dashbo.Router.Overlay.Ids.{equal_ids-eq, ids, idx_by_id-found, set_at-ids}

-- The overlay's value, and the base's where it has none.
abbrev pub over : {A : Type 0} → Option A → Option A → Option A
over (some v) base = some v
over none base = base

module _ {J : Type 0} where
  -- The last instance with an id.
  abbrev pub find_instance : Option String → List (RawInstance J) → Option (RawInstance J)
  find_instance iid [] = none
  find_instance iid (i ∷ rest) =
      over (find_instance iid rest) (if equal_ids i.id iid then some i else none)

  find-append :
      (iid : Option String) (x : RawInstance J) (xs : List (RawInstance J))
      → find_instance iid (xs ++ x ∷ [])
        ≡ (if equal_ids x.id iid then some x else find_instance iid xs)
  find-append iid x [] = refl
  find-append iid x (y ∷ ys) = elim (Bool-cases (equal_ids x.id iid)) [
    | inl same ↦
        let rest = find-append iid x ys in let rest' = rw same at rest in rw same (rw rest' refl)
    | inr other ↦
        let rest = find-append iid x ys in let rest' = rw other at rest in rw other (rw rest' refl)
  ]

  find-of_no_index :
      (n : ℕ) (iid : Option String) (xs : List (RawInstance J))
      → idx_by_id n xs iid ≡ none
      → find_instance iid xs ≡ none
  unfolding idx_by_id
  find-of_no_index n iid [] h = refl
  find-of_no_index n iid (y ∷ ys) h = elim (Option-cases (idx_by_id (suc n) ys iid)) [
    | inr (m, later) ↦ let no : some m ≡ none = rw later at h in cc
    | inl absent ↦ elim (Bool-cases (equal_ids y.id iid)) [
      | inl here ↦ let no : some n ≡ none = rw here at (rw absent at h) in cc
      | inr other ↦ rw (find-of_no_index (suc n) iid ys absent) (rw other refl)
    ]
  ]

  -- The instance at the index of its id takes the place of the last one with that id.
  find-set_at :
      (n k : ℕ) (iid : Option String) (x : RawInstance J) (xs : List (RawInstance J))
      → idx_by_id n xs x.id ≡ some (n + k)
      → find_instance iid (set_at k x xs)
        ≡ (if equal_ids x.id iid then some x else find_instance iid xs)
  unfolding idx_by_id set_at
  find-set_at n k iid x [] h = cc
  find-set_at n zero iid x (y ∷ ys) h = elim (Option-cases (idx_by_id (suc n) ys x.id)) [
    | inr (m, later) ↦
        let e : some m ≡ some (n + 0) = rw later at h in
        let q : m ≡ n + 0 = cc in
        let (j, at_j, got) = idx_by_id-found (suc n) ys x.id m later in
        absurd (omega (arith, q, at_j))
    | inl absent ↦ elim (Bool-cases (equal_ids y.id x.id)) [
      | inr other ↦ let no : none ≡ some (n + 0) = rw other at (rw absent at h) in cc
      | inl here ↦ elim (Bool-cases (equal_ids x.id iid)) [
        | inl same ↦
            let e : x.id ≡ iid = equal_ids-eq x.id iid same in
            let gone : find_instance iid ys ≡ none =
              subst (λ i. find_instance i ys ≡ none) e (find-of_no_index (suc n) x.id ys absent) in
            rw same (rw gone refl)
        | inr other ↦
            let e : y.id ≡ x.id = equal_ids-eq y.id x.id here in
            let other' : equal_ids y.id iid ≡ false =
              subst (λ i. equal_ids i iid ≡ false) (sym e) other in
            rw other (rw other' refl)
      ]
    ]
  ]
  find-set_at n (suc k) iid x (y ∷ ys) h = elim (Option-cases (idx_by_id (suc n) ys x.id)) [
    | inr (m, later) ↦
        let e : some m ≡ some (n + suc k) = rw later at h in
        let q : m ≡ suc n + k = omega (arith, some-injective m (n + suc k) e) in
        let rest = find-set_at (suc n) k iid x ys (later ∙ ap some q) in
        elim (Bool-cases (equal_ids x.id iid)) [
          | inl same ↦ let rest' = rw same at rest in rw same (rw rest' refl)
          | inr other ↦ let rest' = rw other at rest in rw other (rw rest' refl)
        ]
    | inl absent ↦ elim (Bool-cases (equal_ids y.id x.id)) [
      | inr other ↦ let no : none ≡ some (n + suc k) = rw other at (rw absent at h) in cc
      | inl here ↦
          let e : some n ≡ some (n + suc k) = rw here at (rw absent at h) in
          absurd (omega (arith, some-injective n (n + suc k) e))
    ]
  ]
    where
      some-injective : (a b : ℕ) → some a ≡ some b → a ≡ b
      some-injective a b e = cc

  idx_by_id-of_ids :
      (n : ℕ) (iid : Option String) (xs ys : List (RawInstance J))
      → ids xs ≡ ids ys
      → idx_by_id n xs iid ≡ idx_by_id n ys iid
  unfolding idx_by_id
  idx_by_id-of_ids n iid [] [] e = refl
  idx_by_id-of_ids n iid [] (y ∷ ys) e = cc
  idx_by_id-of_ids n iid (x ∷ xs) [] e = cc
  idx_by_id-of_ids n iid (x ∷ xs) (y ∷ ys) e =
      let head : x.id ≡ y.id = cc in
      let tail : ids xs ≡ ids ys = cc in
      ap (λ o. later_or o (equal_ids x.id iid) n) (idx_by_id-of_ids (suc n) iid xs ys tail)
      ∙ ap (λ i. later_or (idx_by_id (suc n) ys iid) (equal_ids i iid) n) head

  idx_by_id-append :
      (n : ℕ) (iid : Option String) (x : RawInstance J) (xs : List (RawInstance J))
      → equal_ids x.id iid ≡ false
      → idx_by_id n (xs ++ x ∷ []) iid ≡ idx_by_id n xs iid
  unfolding idx_by_id
  idx_by_id-append n iid x [] other = rw other refl
  idx_by_id-append n iid x (y ∷ ys) other =
      ap (λ o. later_or o (equal_ids y.id iid) n) (idx_by_id-append (suc n) iid x ys other)

  -- An index that is right for these instances.
  abbrev IsIndex : (Option String → Option ℕ) → List (RawInstance J) → Type 0
  IsIndex idx xs = (iid : Option String) (n : ℕ) → idx iid ≡ some n → idx_by_id 0 xs iid ≡ some n

  place_instance-parts :
      (idx : Option String → Option ℕ) (x : RawInstance J) (xs : List (RawInstance J))
      → IsIndex idx xs
      → IsIndex idx (place_instance (idx x.id) x xs)
        × ((iid : Option String)
            → find_instance iid (place_instance (idx x.id) x xs)
              ≡ (if equal_ids x.id iid then some x else find_instance iid xs))
  place_instance-parts idx x xs right = elim (Option-cases (idx x.id)) [
    | inl absent ↦ rw absent (
      λ iid n h. idx_by_id-append 0 iid x xs (differs iid n absent h) ∙ right iid n h,
      λ iid. find-append iid x xs,
    )
    | inr (k, found) ↦
        let at_k = right x.id k found in
        let (j, e, got) = idx_by_id-found 0 xs x.id k at_k in
        let q : j ≡ k = omega (arith, e) in
        let same = set_at-ids k x xs (subst (λ m. get_elem? (ids xs) m ≡ some x.id) q got) in
        rw found (
          λ iid n h. idx_by_id-of_ids 0 iid (set_at k x xs) xs same ∙ right iid n h,
          λ iid. find-set_at 0 k iid x xs (at_k ∙ ap some (omega arith)),
        )
  ]
    where
      differs :
          (iid : Option String) (n : ℕ)
          → idx x.id ≡ none
          → idx iid ≡ some n
          → equal_ids x.id iid ≡ false
      differs iid n absent h = elim (Bool-cases (equal_ids x.id iid)) [
        | inr other ↦ other
        | inl same ↦
            let e = ap idx (equal_ids-eq x.id iid same) in
            let no : none ≡ some n = sym absent ∙ e ∙ h in cc
      ]

  find-merge_of_index :
      (iid : Option String) (idx : Option String → Option ℕ) (insts xs : List (RawInstance J))
      → IsIndex idx xs
      → find_instance iid (merge_instances idx xs insts)
        ≡ over (find_instance iid insts) (find_instance iid xs)
  unfolding merge_instances
  find-merge_of_index iid idx [] xs right = refl
  find-merge_of_index iid idx (x ∷ rest) xs right =
      let (right', placed) = place_instance-parts idx x xs right in
      find-merge_of_index iid idx rest (place_instance (idx x.id) x xs) right'
      ∙ ap (over (find_instance iid rest)) (placed iid)
      ∙ joined (find_instance iid rest)
    where
      joined :
          (later : Option (RawInstance J))
          → over later (if equal_ids x.id iid then some x else find_instance iid xs)
            ≡ over (over later (if equal_ids x.id iid then some x else none)) (find_instance iid xs)
      joined (some i) = refl
      joined none = elim (Bool-cases (equal_ids x.id iid)) [
        | inl same ↦ rw same refl
        | inr other ↦ rw other refl
      ]

  pub find-merge_instances :
      (iid : Option String) (base insts : List (RawInstance J))
      → find_instance iid (merge_instances (idx_by_id 0 base) base insts)
        ≡ over (find_instance iid insts) (find_instance iid base)
  find-merge_instances iid base insts =
      find-merge_of_index iid (idx_by_id 0 base) insts base (λ i n h. h)
