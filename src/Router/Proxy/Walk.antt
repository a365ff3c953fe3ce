-- ===== src/Router/Proxy/Walk.antt =====
-- The slots and streams held across the attempts on a group and the walk along the chain.
use llm_router_server_dashbo.Base.{
  ℕ, zero, suc, ◌-◌, String, Bool, true, false, not, ◌&&◌, ◌≡◌, refl, ◌∙◌, ◌⊎◌, inl, inr, Option,
  none, some, List, [], ◌∷◌, arith, if-intro, ◌==◌, is_some,
}
use llm_router_server_dashbo.Router.Http.{Result, ok, raised}
use llm_router_server_dashbo.Router.State.{App}
use llm_router_server_dashbo.Router.Score.{Instance}
use llm_router_server_dashbo.Router.Lora.{Target}
use llm_router_server_dashbo.Router.Proxy.{
  World, Keys, Frame, Response, begin_attempt, attempts, max_attempts, try_target, walk, selection,
  after_selection, address_of,
}
use llm_router_server_dashbo.Router.Proxy.Keeps.{
  SameInflight, get_inflight-of_same, select_instance-SameInflight,
}
use llm_router_server_dashbo.Router.Proxy.Balance.{
  IsIdle, IsServing, Settles, attempt_on-Settles, begin_attempt-HasSlot,
}

module _ (app : App) (streams : ℕ) where
  module _ (w : World) (keys : Keys) (t : Target) (strategy : String) where
    -- A selection that raised leaves the frame idle, one that took an instance goes on with it.
    after_selection-Settles :
        (again : List String → Frame → Frame × Bool) (is_last : Bool) (tried : List String)
        (f : Frame) (chosen : Result Instance × App)
        → (is_last ≡ false
            → (tried' : List String) (g : Frame) → IsIdle app streams g
            → g.model_key ≡ some t.route_key
            → Settles app streams (again tried' g))
        → IsIdle app streams f
        → f.model_key ≡ some t.route_key
        → SameInflight chosen.1 f.app
        → Settles app streams (after_selection w t is_last again tried f chosen)
    unfolding after_selection
    after_selection-Settles again is_last tried f (raised e, app') ih idle model same = inl (
      refl,
      record {
        counts = λ m i. get_inflight-of_same app' f.app m i same ∙ idle.counts m i;
        streams_open = idle.streams_open;
        owns = idle.owns;
        context = idle.context;
        counted = idle.counted;
      },
    )
    after_selection-Settles again is_last tried f (ok instance, app') ih idle model same =
        attempt_on-Settles app streams w t instance.id is_last (again (instance.id ∷ tried))
          (begin_attempt t instance app' f)
          (w.upstream f.attempts_made (address_of w t.route_key instance) t.forward_name)
          (λ more g. ih more (instance.id ∷ tried) g)
          (begin_attempt-HasSlot app streams t instance app' f idle model same)

    selection-SameInflight :
        (tried : List String) (f : Frame)
        → SameInflight (selection w keys t strategy tried f).1 f.app
    unfolding selection
    selection-SameInflight tried f = select_instance-SameInflight _ f.app _

    -- Any positive number of attempts settles.
    attempts-Settles :
        (left : ℕ) (tried : List String) (f : Frame)
        → IsIdle app streams f
        → f.model_key ≡ some t.route_key
        → Settles app streams (attempts w keys t strategy (suc left) tried f)
    unfolding attempts
    attempts-Settles zero tried f idle model =
        after_selection-Settles (attempts w keys t strategy zero) true tried f _ (λ last. cc) idle
          model (selection-SameInflight tried f)
    attempts-Settles (suc left) tried f idle model =
        after_selection-Settles (attempts w keys t strategy (suc left)) (suc left == 0) tried f _
          (λ _ tried' g idle' model'. attempts-Settles left tried' g idle' model') idle model
          (selection-SameInflight tried f)

  -- An idle frame stays so while the chain is walked, until a target serves.
  try_target-Settles :
      (w : World) (keys : Keys) (t : Target) (f : Frame)
      → IsIdle app streams f
      → Settles app streams (try_target w keys t f)
  unfolding try_target
  try_target-Settles w keys t f idle =
      let positive : max_attempts t.model_cfg ≡ suc (max_attempts t.model_cfg - 1) =
        unfold max_attempts in omega arith in
      let fresh : Frame = record f { model_key = some t.route_key; response = none } in
      rw positive (
        attempts-Settles w keys t _ (max_attempts t.model_cfg - 1) [] fresh
          (record {
            counts = idle.counts;
            streams_open = idle.streams_open;
            owns = idle.owns;
            context = idle.context;
            counted = idle.counted;
          })
          refl)

  -- The walk ends idle or serving.
  pub walk-Settles :
      (w : World) (keys : Keys) (ts : List Target) (f : Frame)
      → IsIdle app streams f
      → IsIdle app streams (walk w keys ts f) ⊎ IsServing app streams (walk w keys ts f)
  unfolding walk
  walk-Settles w keys [] f idle = inl idle
  walk-Settles w keys (t ∷ ts) f idle = elim (try_target-Settles w keys t f idle) [
    | inl (exhausted, still) ↦
        if-intro EndsWell _ _ _ (λ _. inl still)
          (λ _. walk-Settles w keys ts (try_target w keys t f).0 still)
    | inr (kept, serving) ↦
        if-intro EndsWell _ _ _ (λ _. inr serving)
          (λ refused. absurd (contradicts _ _ serving.response kept refused))
  ]
    where
      EndsWell : Frame → Type 0
      EndsWell g = IsIdle app streams g ⊎ IsServing app streams g

      contradicts :
          {r : Response} (o : Option Response) (b : Bool)
          → o ≡ some r
          → b ≡ false
          → (is_some o && not b) ≡ false
          → ⊥
      contradicts o b e kept refused = ground arith
