-- ===== src/Router/Proxy/Bounds.antt =====
-- How many backends one request may call.
use llm_router_server_dashbo.Base.{
  ℕ, zero, suc, ◌+◌, ◌*◌, ◌≤◌, String, Bool, not, ◌&&◌, List, [], ◌∷◌, arith, if-intro, leb, ◌==◌,
  ◌≡◌, refl, subst, min, max, if◌then◌else◌, length, is_some,
}
use llm_router_server_dashbo.Router.Http.{Result, ok, raised}
use llm_router_server_dashbo.Router.State.{App}
use llm_router_server_dashbo.Router.Score.{Instance}
use llm_router_server_dashbo.Router.Lora.{Target}
use llm_router_server_dashbo.Router.Proxy.{
  World, Keys, Frame, Outcome, failed, responded, on_transport_error, on_server_error, on_response,
  attempt_on, begin_attempt, attempts, max_attempts, try_target, walk, after_selection, address_of,
}

module _ (w : World) (keys : Keys) where
  attempt_on-made :
      (t : Target) (id : String) (is_last : Bool) (again : Frame → Frame × Bool) (f : Frame)
      (o : Outcome) (left : ℕ)
      → ((g : Frame) → (again g).0.attempts_made ≤ g.attempts_made + left)
      → (attempt_on w t id is_last again f o).0.attempts_made ≤ f.attempts_made + suc left
  unfolding attempt_on
  attempt_on-made t id is_last again f (failed e) left ih =
      if-intro (λ (p : Frame × Bool). p.0.attempts_made ≤ f.attempts_made + suc left) is_last _ _
        (λ _. unfold on_transport_error in omega arith)
        (λ _.
          let bound = ih (on_transport_error w t.route_key id e f) in
          unfold on_transport_error in omega (arith, bound))
  attempt_on-made t id is_last again f (responded r) left ih =
      if-intro (λ (p : Frame × Bool). p.0.attempts_made ≤ f.attempts_made + suc left)
        (leb 500 r.status_code && not is_last) _ _
        (λ _.
          let bound = ih (on_server_error w t.route_key id (on_response r f)) in
          unfold on_server_error on_response in omega (arith, bound))
        (λ _. unfold on_response in omega arith)

  after_selection-made :
      (t : Target) (is_last : Bool) (again : List String → Frame → Frame × Bool)
      (tried : List String) (f : Frame) (chosen : Result Instance × App) (left : ℕ)
      → ((tried' : List String) (g : Frame)
          → (again tried' g).0.attempts_made ≤ g.attempts_made + left)
      → (after_selection w t is_last again tried f chosen).0.attempts_made
        ≤ f.attempts_made + suc left
  unfolding after_selection
  after_selection-made t is_last again tried f (raised e, app') left ih = omega arith
  after_selection-made t is_last again tried f (ok instance, app') left ih =
      let bound =
        attempt_on-made t instance.id is_last (again (instance.id ∷ tried))
          (begin_attempt t instance app' f)
          (w.upstream f.attempts_made (address_of w t.route_key instance) t.forward_name) left
          (ih (instance.id ∷ tried)) in
      unfold begin_attempt in bound

  attempts-made :
      (t : Target) (strategy : String) (left : ℕ) (tried : List String) (f : Frame)
      → (attempts w keys t strategy left tried f).0.attempts_made ≤ f.attempts_made + left
  unfolding attempts
  attempts-made t strategy zero tried f = omega arith
  attempts-made t strategy (suc left) tried f =
      after_selection-made t (left == 0) (attempts w keys t strategy left) tried f _ left
        (attempts-made t strategy left)

  -- The most calls for a group with so many instances: one for each, but one at least and three at most.
  abbrev pub most_calls : ℕ → ℕ
  most_calls zero = 1
  most_calls (suc n) = if leb 3 n then 3 else min (suc n) 3

  abbrev pub budget : List Target → ℕ
  budget [] = 0
  budget (t ∷ ts) = most_calls (length t.model_cfg.instances) + budget ts

  capped : (n : ℕ) → (max 1 (min n 3) ≡ most_calls n) × (most_calls n ≤ 3)
  capped zero = (refl, omega arith)
  capped (suc n) = (ground arith, ground arith)

  try_target-made :
      (t : Target) (f : Frame)
      → (try_target w keys t f).0.attempts_made
        ≤ f.attempts_made + most_calls (length t.model_cfg.instances)
  unfolding try_target max_attempts
  try_target-made t f =
      subst (λ n. (try_target w keys t f).0.attempts_made ≤ f.attempts_made + n)
        (capped (length t.model_cfg.instances)).0
        (attempts-made t _ (max_attempts t.model_cfg) [] _)

  walk-budget :
      (ts : List Target) (f : Frame)
      → (walk w keys ts f).attempts_made ≤ f.attempts_made + budget ts
  unfolding walk
  walk-budget [] f = omega arith
  walk-budget (t ∷ ts) f =
      let here = try_target-made t f in
      if-intro (λ (g : Frame). g.attempts_made ≤ f.attempts_made + budget (t ∷ ts))
        (is_some (try_target w keys t f).0.response && not (try_target w keys t f).1)
        (try_target w keys t f).0 (walk w keys ts (try_target w keys t f).0)
        (λ _. omega (arith, here))
        (λ _. omega (arith, here, walk-budget ts (try_target w keys t f).0))

  budget-le : (ts : List Target) → budget ts ≤ 3 * length ts
  budget-le [] = omega arith
  budget-le (t ∷ ts) = omega (arith, budget-le ts, (capped (length t.model_cfg.instances)).1)

  -- An entry of a chain is called at most once for each instance of its group (once for a group with
  -- none), and at most three times; a walk makes no more calls than its entries allow between them, so at
  -- most three for each. A group that stands in the chain twice is called for each of its entries.
  pub walk-made :
      (ts : List Target) (f : Frame) (t : Target) (g : Frame)
      → ((try_target w keys t g).0.attempts_made
          ≤ g.attempts_made + most_calls (length t.model_cfg.instances))
        × ((walk w keys ts f).attempts_made ≤ f.attempts_made + budget ts)
        × (budget ts ≤ 3 * length ts)
  walk-made ts f t g = (try_target-made t g, walk-budget ts f, budget-le ts)
