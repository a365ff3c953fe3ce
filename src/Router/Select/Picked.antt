-- ===== src/Router/Select/Picked.antt =====
-- Where a successful selection took its instance from.
use llm_router_server_dashbo.Base.{
  String, Bool, true, not, ◌&&◌, List, [], ◌∷◌, any, filter, filter-ext, eq_refl, any-of_mem,
  str_eq, Memᴰ, ◌≡◌, refl, ap, ◌∙◌, ◌⊎◌, inl, inr, Bool-cases, arith, subst,
}
use llm_router_server_dashbo.Router.Http.{ok}
use llm_router_server_dashbo.Router.State.{App, is_draining}
use llm_router_server_dashbo.Router.State.Marks.{is_draining_stable}
use llm_router_server_dashbo.Router.Score.{Instance, is_instance_sleeping}
use llm_router_server_dashbo.Router.Strategies.{Env, SelectContext}
use llm_router_server_dashbo.Router.Strategies.Choice.{run_strategy-IsChoice}
use llm_router_server_dashbo.Router.Select.{
  Request, is_excluded, drop_draining, strategy_or_default, pick, pick_undrained, select_awake,
  select_candidate, select_from,
}

-- An instance that may serve the request: not tried before, and awake.
abbrev pub is_servable : App → Request → Instance → Bool
is_servable app req i =
    not (is_excluded req.exclude i) && not (is_instance_sleeping app req.model_key i.id)

abbrev pub drains : Env → App → Request → Instance → Bool
drains env app req i = (is_draining env.now app req.model_key i.id).0

drop_draining-filter :
    (env : Env) (app : App) (m : String) (l : List Instance)
    → (drop_draining env.now app m l).0 ≡ filter (λ i. not (is_draining env.now app m i.id).0) l
unfolding drop_draining
drop_draining-filter env app m [] = refl
drop_draining-filter env app m (i ∷ rest) =
    let app' = (is_draining env.now app m i.id).1 in
    let ih : (drop_draining env.now app' m rest).0
        ≡ filter (λ x. not (is_draining env.now app m x.id).0) rest =
      drop_draining-filter env app' m rest
      ∙ filter-ext _ _
          (λ x. ap not (is_draining_stable env.now env.now app m i.id m x.id (omega arith))) rest in
    elim (Bool-cases (is_draining env.now app m i.id).0) [
      | inl d ↦ rw d ih
      | inr d ↦ rw d (ap (◌∷◌ i) ih)
    ]

-- What a pick from the list `l` may be: one of `l`, or an instance of the group with the id of one.
abbrev pub Picked : Request → List Instance → Instance → Type 0
Picked req l r = (Memᴰ r l ⊎ Memᴰ r req.instances) × (any (λ a. str_eq a.id r.id) l ≡ true)

pick-Picked :
    (env : Env) (app : App) (req : Request) (first : Instance) (others : List Instance)
    → Picked req (first ∷ others) (pick env app req first others).0
unfolding pick
pick-Picked env app req first [] = (
  inl (Memᴰ.head refl),
  any-of_mem (λ (a : Instance). str_eq a.id first.id) {a = first} {xs = first ∷ []} (Memᴰ.head refl)
      (eq_refl first.id),
)
pick-Picked env app req first (second ∷ others) =
    let ctx : SelectContext = record {
      model_key = req.model_key;
      first = first;
      others = second ∷ others;
      all_instances = req.instances;
      session_key = req.session_key;
      prompt_prefix = req.prompt_prefix;
    } in
    let (where_from, offered) =
      run_strategy-IsChoice (strategy_or_default req.strategy) env app ctx in
    (of_roster req.instances where_from, offered)
  where
    of_roster :
        (xs : List Instance) {r : Instance}
        → Memᴰ r (first ∷ (second ∷ others))
          ⊎ Memᴰ r (elim xs [ [] ↦ first ∷ (second ∷ others) | y ∷ ys ↦ y ∷ ys ])
        → Memᴰ r (first ∷ (second ∷ others)) ⊎ Memᴰ r xs
    of_roster xs (inl m) = inl m
    of_roster [] (inr m) = inl m
    of_roster (x ∷ xs) (inr m) = inr m

module _ (env : Env) (app : App) (req : Request) where
  abbrev pub undrained : List Instance → List Instance
  undrained l = filter (λ i. not (drains env app req i)) l

  abbrev pub awake_among : List Instance → List Instance
  awake_among l = filter (λ i. not (is_instance_sleeping app req.model_key i.id)) l

  abbrev pub untried_among : List Instance → List Instance
  untried_among l = filter (λ i. not (is_excluded req.exclude i)) l

  -- A pick among awake candidates: from the undrained ones, or from all if none of them is.
  abbrev pub PickOf : List Instance → List Instance → Instance → Type 0
  PickOf kept l r = ((kept ≡ []) × Picked req l r) ⊎ Picked req kept r

  abbrev pub AwakePick : List Instance → Instance → Type 0
  AwakePick l r = PickOf (undrained l) l r

  pick_undrained-Picked :
      (first : Instance) (others kept : List Instance) (app' : App)
      → PickOf kept (first ∷ others) (pick_undrained env req first others (kept, app')).0
  unfolding pick_undrained
  pick_undrained-Picked first others [] app' = inl (refl, pick-Picked env app' req first others)
  pick_undrained-Picked first others (x ∷ xs) app' = inr (pick-Picked env app' req x xs)

  select_awake-ok :
      (l : List Instance) (r : Instance) → (select_awake env app req l).0 ≡ ok r → AwakePick l r
  unfolding select_awake
  select_awake-ok [] r h = cc
  select_awake-ok (first ∷ others) r h =
      let (kept, app') = drop_draining env.now app req.model_key (first ∷ others) in
      let is_chosen : (pick_undrained env req first others (kept, app')).0 ≡ r = cc in
      let same : kept ≡ undrained (first ∷ others) =
        drop_draining-filter env app req.model_key (first ∷ others) in
      subst (λ k. PickOf k (first ∷ others) r) same
        (subst (PickOf kept (first ∷ others)) is_chosen
          (pick_undrained-Picked first others kept app'))

  select_candidate-ok :
      (l : List Instance) (r : Instance)
      → (select_candidate env app req l).0 ≡ ok r
      → AwakePick (awake_among l) r
  unfolding select_candidate
  select_candidate-ok [] r h = cc
  select_candidate-ok (x ∷ xs) r h = select_awake-ok (awake_among (x ∷ xs)) r h

  pub select_from-ok :
      (l : List Instance) (r : Instance)
      → (select_from env app req l).0 ≡ ok r
      → AwakePick (awake_among (untried_among l)) r
  unfolding select_from
  select_from-ok [] r h = cc
  select_from-ok (x ∷ xs) r h = select_candidate-ok (untried_among (x ∷ xs)) r h
