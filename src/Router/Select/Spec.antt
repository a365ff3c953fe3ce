-- ===== src/Router/Select/Spec.antt =====
-- What `select_instance` returns, and when it raises.
use llm_router_server_dashbo.Base.{
  String, Bool, true, not, ◌&&◌, List, [], ◌∷◌, any, mem-filter, mem-filter_intro,
  filter-nil_no_mem, and_parts, not-false, false, mem-of_any, str_eq, eq_iff, Memᴰ, ◌≡◌, refl, ap,
  ◌∙◌, inl, inr, arith, subst, is_empty,
}
use llm_router_server_dashbo.Router.Http.{ok}
use llm_router_server_dashbo.Router.Http.{Result, raised}
use llm_router_server_dashbo.Router.State.{App, is_draining}
use llm_router_server_dashbo.Router.Score.{Instance, is_instance_sleeping}
use llm_router_server_dashbo.Router.Strategies.{Env}
use llm_router_server_dashbo.Router.Select.{
  Request, select_awake, select_candidate, select_from, select_instance,
}
use llm_router_server_dashbo.Router.Select.Picked.{
  is_servable, drains, undrained, awake_among, untried_among, AwakePick, select_from-ok,
}

module _ (env : Env) (app : App) (req : Request) where
  abbrev same_id : Instance → Instance → Bool
  same_id r a = str_eq a.id r.id

  -- An instance with the id of a member of the list has what every member has.
  on_id :
      (P : String → Type 0) (l : List Instance) (r : Instance)
      → any (same_id r) l ≡ true
      → ((a : Instance) → Memᴰ a l → P a.id)
      → P r.id
  on_id P l r offered h =
      let (a, m, e) = mem-of_any (same_id r) l offered in subst P ((eq_iff a.id r.id).0 e) (h a m)

  mem-awake_among :
      (l : List Instance) (a : Instance)
      → Memᴰ a (awake_among env app req (untried_among env app req l))
      → Memᴰ a l × (is_servable app req a ≡ true)
  mem-awake_among l a m =
      let (untried, awake) = mem-filter _ (untried_among env app req l) m in
      let (known, fresh) = mem-filter _ l untried in (known, rw fresh awake)

  -- What a successful selection returns.
  pub record IsRoutable (r : Instance) : Type 0 where
    pub member : Memᴰ r req.instances
    pub servable : is_servable app req r ≡ true
    pub drained_only_if_all :
        drains env app req r ≡ true
        → (x : Instance) → Memᴰ x req.instances
        → is_servable app req x ≡ true
        → drains env app req x ≡ true

  servable_by_id : String → Bool
  servable_by_id id =
      not (any (λ e. str_eq e id) req.exclude) && not (is_instance_sleeping app req.model_key id)

  -- A pick from the awake, untried members of the group is routable.
  AwakePick-IsRoutable :
      (r : Instance)
      → AwakePick env app req (awake_among env app req (untried_among env app req req.instances)) r
      → IsRoutable r
  AwakePick-IsRoutable r (inl (all_drain, (from, offered))) =
      let awake = awake_among env app req (untried_among env app req req.instances) in
      record {
        member = elim from [ inl m ↦ (mem-awake_among req.instances r m).0 | inr m ↦ m ];
        servable =
            unfold servable_by_id in
            on_id (λ id. servable_by_id id ≡ true) awake r offered
              (λ a m. (mem-awake_among req.instances a m).1);
        drained_only_if_all = λ _ x known serves.
            let (fresh, awake_x) = and_parts _ _ serves in
            not-false _ (
              filter-nil_no_mem (λ i. not (drains env app req i)) all_drain
                (mem-filter_intro _ (mem-filter_intro _ known fresh) awake_x));
      }
  AwakePick-IsRoutable r (inr (from, offered)) =
      let awake = awake_among env app req (untried_among env app req req.instances) in
      record {
        member = elim from [
          | inl m ↦ (mem-awake_among req.instances r (mem-filter _ awake m).0).0
          | inr m ↦ m
        ];
        servable =
            unfold servable_by_id in
            on_id (λ id. servable_by_id id ≡ true) (undrained env app req awake) r offered
              (λ a m. (mem-awake_among req.instances a (mem-filter _ awake m).0).1);
        drained_only_if_all = λ drained _ _ _.
            let kept : not (drains env app req r) ≡ true =
              on_id (λ id. not (is_draining env.now app req.model_key id).0 ≡ true)
                (undrained env app req awake) r offered (λ a m. (mem-filter _ awake m).1) in
            cc;
      }

  -- A selected instance belongs to the group, was not tried before and is awake; and it drains only
  -- if every untried and awake instance of the group does.
  pub select_instance-IsRoutable :
      (r : Instance) → (select_instance env app req).0 ≡ ok r → IsRoutable r
  unfolding select_instance
  select_instance-IsRoutable r h =
      AwakePick-IsRoutable r (select_from-ok env app req req.instances r h)

  -- How a selection ends: an instance where one is servable, 500 for an empty group, 503 otherwise.
  abbrev Ends : List Instance → Result Instance → Type 0
  Ends l (ok r) = any (is_servable app req) l ≡ true
  Ends [] (raised e) = e.status_code ≡ 500
  Ends (x ∷ xs) (raised e) = (any (is_servable app req) (x ∷ xs) ≡ false) × (e.status_code ≡ 503)

  any_servable :
      (l : List Instance)
      → any (is_servable app req) l
        ≡ not (is_empty (awake_among env app req (untried_among env app req l)))
  any_servable [] = refl
  any_servable (x ∷ xs) = ground (arith, any_servable xs)

  select_awake-Ends :
      (x : Instance) (xs zs : List Instance)
      → awake_among env app req (untried_among env app req (x ∷ xs)) ≡ zs
      → Ends (x ∷ xs) (select_awake env app req zs).0
  unfolding select_awake
  select_awake-Ends x xs [] e = (any_servable (x ∷ xs) ∙ ap (λ l. not (is_empty l)) e, refl)
  select_awake-Ends x xs (z ∷ zs) e = any_servable (x ∷ xs) ∙ ap (λ l. not (is_empty l)) e

  select_candidate-Ends :
      (x : Instance) (xs ys : List Instance)
      → untried_among env app req (x ∷ xs) ≡ ys
      → Ends (x ∷ xs) (select_candidate env app req ys).0
  unfolding select_candidate
  select_candidate-Ends x xs [] e =
      (any_servable (x ∷ xs) ∙ ap (λ l. not (is_empty (awake_among env app req l))) e, refl)
  select_candidate-Ends x xs (y ∷ ys) e =
      select_awake-Ends x xs (awake_among env app req (y ∷ ys)) (ap (awake_among env app req) e)

  select_from-Ends : (l : List Instance) → Ends l (select_from env app req l).0
  unfolding select_from
  select_from-Ends [] = refl
  select_from-Ends (x ∷ xs) = select_candidate-Ends x xs (untried_among env app req (x ∷ xs)) refl

  -- A selection succeeds exactly where an untried, awake instance exists; otherwise it raises 500
  -- for a group with no instances, and 503 for any other.
  pub select_instance-Ends : Ends req.instances (select_instance env app req).0
  unfolding select_instance
  select_instance-Ends = select_from-Ends req.instances
