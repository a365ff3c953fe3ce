-- ===== src/Fleet/Converge/Owned.antt =====
-- Whose instances a pass acts on.
use mathlib.Core.List.Memᴰ
use llm_router_server_dashbo.Base.{
  ◌≡◌, refl, sym, ◌∙◌, ap, String, Bool, true, false, some, [], ◌∷◌, Memᴰ, Bool-cases, Option-cases,
  inl, inr, any, str_eq, eq_iff, subst, none, List,
}
use llm_router_server_dashbo.Base.Dict.{Dict, lookup}
use llm_router_server_dashbo.Fleet.State.{ModelState, Desired}
use llm_router_server_dashbo.Fleet.Converge.{
  Command, planned, wanted_action, converge_desired, foreign_assignments, is_elsewhere,
}

module _ (foreign : List String) (states : Dict ModelState) where
  abbrev pub is_foreign : String → Bool
  is_foreign key = any (λ k. str_eq k key) foreign

  -- The store wants a state of the instance, and this action leads there.
  abbrev pub IsDue : Dict Desired → String × Command → Type 0
  IsDue desired (key, action) =
      (want : Desired) × Memᴰ (key, want) desired
      × (wanted_action want (lookup key states) ≡ some action)

  -- A pass acts on no foreign instance, and each action is the one for the instance's state
  -- and for a state that the store wants of it.
  pub converge_desired-IsDue :
      (desired : Dict Desired) {key : String} {action : Command}
      → Memᴰ (key, action) (converge_desired foreign states desired)
      → (is_foreign key ≡ false) × IsDue desired (key, action)
  unfolding converge_desired
  converge_desired-IsDue [] m = absurd (Memᴰ.not-nil m)
  converge_desired-IsDue ((k, want) ∷ rest) {key} {action} m = elim (Bool-cases (is_foreign k)) [
    | inl other ↦
        let later : Memᴰ (key, action) (converge_desired foreign states rest) = rw other at m in
        let (own, (w, at_w, e)) = converge_desired-IsDue rest later in (own, (w, Memᴰ.tail at_w, e))
    | inr own ↦
        let later = converge_desired foreign states rest in
        let m' : Memᴰ (key, action) (planned k (wanted_action want (lookup k states)) later) =
          rw own at m in
        elim (Option-cases (wanted_action want (lookup k states))) [
          | inl idle ↦
              let m'' : Memᴰ (key, action) later = rw idle at m' in
              let (own', (w, at_w, e)) = converge_desired-IsDue rest m'' in
              (own', (w, Memᴰ.tail at_w, e))
          | inr (a, e) ↦
              let m'' : Memᴰ (key, action) ((k, a) ∷ later) = rw e at m' in
              elim (Memᴰ.cases_cons m'') [
                | inl q ↦
                    let same : key ≡ k = ap (λ (x : String × Command). x.0) q in
                    let act : action ≡ a = ap (λ (x : String × Command). x.1) q in
                    (
                      rw same own,
                      (want, Memᴰ.head (ap (λ x. (x, want)) same), rw same (e ∙ ap some (sym act))),
                    )
                | inr t ↦
                    let (own', (w, at_w, e')) = converge_desired-IsDue rest t in
                    (own', (w, Memᴰ.tail at_w, e'))
              ]
        ]
  ]

assigned-foreign :
    (me : String) (alive : List String) (assignments : Dict String) (key node : String)
    → lookup key assignments ≡ some node
    → is_elsewhere me alive node ≡ true
    → any (λ k. str_eq k key) (foreign_assignments me alive assignments) ≡ true
unfolding lookup foreign_assignments
assigned-foreign me alive [] key node h away = cc
assigned-foreign me alive ((k, n) ∷ rest) key node h away = elim (Bool-cases (str_eq k key)) [
  | inl same ↦
      let e : some n ≡ some node = rw same at h in
      let there : is_elsewhere me alive n ≡ true =
        subst (λ o. elim o [ none ↦ false | some x ↦ is_elsewhere me alive x ] ≡ true) (sym e)
          away in
      rw there (rw same refl)
  | inr other ↦
      let later = assigned-foreign me alive rest key node (rw other at h) away in
      elim (Bool-cases (is_elsewhere me alive n)) [
        | inl there ↦ rw there (rw other later)
        | inr here ↦ rw here later
      ]
]

-- Where an instance is assigned to a node that is alive, no other node acts on it: a pass that knows of the
-- assignment and the node calls for it only where the node is its own, and then what the state that it has seen
-- and one that the store wants call for. So two nodes never act on one assigned instance.
pub converge_desired-IsOwned :
    (me : String) (alive : List String) (assignments : Dict String) (states : Dict ModelState)
    (desired : Dict Desired) {key node : String} {action : Command}
    → lookup key assignments ≡ some node
    → any (λ a. str_eq a node) alive ≡ true
    → Memᴰ
        (key, action)
        (converge_desired (foreign_assignments me alive assignments) states desired)
    → (node ≡ me) × IsDue (foreign_assignments me alive assignments) states desired (key, action)
converge_desired-IsOwned me alive assignments states desired {key} {node} assigned living m =
    let foreign = foreign_assignments me alive assignments in
    let (own, due) = converge_desired-IsDue foreign states desired m in
    elim (Bool-cases (str_eq node me)) [
      | inl mine ↦ ((eq_iff node me).0 mine, due)
      | inr not_mine ↦
          let away : is_elsewhere me alive node ≡ true = rw not_mine living in
          let e = sym (assigned-foreign me alive assignments key node assigned away) ∙ own in
          let no : true ≡ false = e in cc
    ]
