-- ===== src/Router/Strategies/Choice.antt =====
-- What each strategy may return.
use mathlib.Core.List.Memᴰ
use llm_router_server_dashbo.Base.{
  ℕ, suc, ◌%◌, ◌≡◌, refl, true, if-intro, mem-get_or_default, inl, inr, ◌⊎◌, List, [], ◌∷◌, length,
  any, any-of_mem, arith, String, str_eq, eq_refl, Memᴰ, Option, none, some,
}
use llm_router_server_dashbo.Router.State.{App}
use llm_router_server_dashbo.Router.Score.{Instance, score_instance}
use llm_router_server_dashbo.Router.Score.Least.{least_by-mem}
use llm_router_server_dashbo.Router.Strategies.{
  SelectContext, Env, Strategy, candidates, roster, at_modulo, second_position, pick_round_robin,
  pick_random, pick_least_inflight, pick_least_load, pick_p2c, home_instance, keeps_home,
  affinity_to, affinity, run_strategy, round_robin, random, least_inflight, least_load, p2c,
  session_affinity, prefix_affinity,
}
use llm_router_server_dashbo.Router.Strategies.Affinity.{home_instance-mem}

-- The id of an instance is that of a candidate.
abbrev pub IsOffered : SelectContext → Instance → Type 0
IsOffered ctx r = any (λ i. str_eq i.id r.id) (candidates ctx) ≡ true

IsOffered-of_mem : (ctx : SelectContext) (r : Instance) → Memᴰ r (candidates ctx) → IsOffered ctx r
IsOffered-of_mem ctx r m = any-of_mem (λ i. str_eq i.id r.id) m (eq_refl r.id)

-- What a strategy returns: a candidate, or with affinity an instance of the roster that has a
-- candidate's id.
abbrev pub IsChoice : SelectContext → Instance → Type 0
IsChoice ctx r = (Memᴰ r (candidates ctx) ⊎ Memᴰ r (roster ctx)) × IsOffered ctx r

IsChoice-of_mem : (ctx : SelectContext) (r : Instance) → Memᴰ r (candidates ctx) → IsChoice ctx r
IsChoice-of_mem ctx r m = (inl m, IsOffered-of_mem ctx r m)

at_modulo-mem : (x : Instance) (xs : List Instance) (i : ℕ) → Memᴰ (at_modulo x xs i) (x ∷ xs)
at_modulo-mem x xs i = mem-get_or_default (x ∷ xs) (i % suc (length xs)) (Memᴰ.head refl)

pick_p2c-mem :
    (env : Env) (app : App) (ctx : SelectContext) → Memᴰ (pick_p2c env app ctx) (candidates ctx)
unfolding pick_p2c
pick_p2c-mem env app ctx =
    let n = length (candidates ctx) in
    let i = env.draw % n in
    let j = second_position n i env.second_draw in
    two (mem-get_or_default (candidates ctx) i (Memᴰ.head refl))
      (mem-get_or_default (candidates ctx) j (Memᴰ.head refl))
      (least_by-mem (score_instance env.now app ctx.model_key) _ _)
  where
    two :
        {a b r : Instance}
        → Memᴰ a (candidates ctx)
        → Memᴰ b (candidates ctx)
        → Memᴰ r (a ∷ b ∷ [])
        → Memᴰ r (candidates ctx)
    two ma mb (Memᴰ.head e) = Memᴰ.cast e ma
    two ma mb (Memᴰ.tail m) = Memᴰ.cast (Memᴰ.eq_of_singleton m) mb

keeps_home-IsOffered :
    (env : Env) (app : App) (ctx : SelectContext) (home best : Instance)
    → keeps_home env app ctx home best ≡ true
    → IsOffered ctx home
unfolding keeps_home
keeps_home-IsOffered env app ctx home best h = ground arith

pick_least_load-IsChoice :
    (env : Env) (app : App) (ctx : SelectContext) → IsChoice ctx (pick_least_load env app ctx)
unfolding pick_least_load
pick_least_load-IsChoice env app ctx = IsChoice-of_mem ctx _ (least_by-mem _ ctx.first ctx.others)

affinity-IsChoice :
    (env : Env) (app : App) (ctx : SelectContext) (key : Option String)
    → IsChoice ctx (affinity env app ctx key)
unfolding affinity affinity_to
affinity-IsChoice env app ctx none = pick_least_load-IsChoice env app ctx
affinity-IsChoice env app ctx (some key) =
    let least = pick_least_load-IsChoice env app ctx in
    let home = home_instance env ctx key in
    if-intro (IsChoice ctx) (str_eq key "") _ _ (λ _. least)
      (λ _.
        if-intro (IsChoice ctx) (keeps_home env app ctx home (pick_least_load env app ctx)) _ _
          (λ kept.
            (inr (home_instance-mem env ctx key), keeps_home-IsOffered env app ctx home _ kept))
          (λ _. least))

-- Every strategy returns one of the candidates, or with affinity an instance of the roster that has a
-- candidate's id.
pub run_strategy-IsChoice :
    (st : Strategy) (env : Env) (app : App) (ctx : SelectContext)
    → IsChoice ctx (run_strategy st env app ctx).0
unfolding run_strategy pick_round_robin pick_random pick_least_inflight
run_strategy-IsChoice round_robin env app ctx =
    IsChoice-of_mem ctx _ (at_modulo-mem ctx.first ctx.others _)
run_strategy-IsChoice random env app ctx =
    IsChoice-of_mem ctx _ (at_modulo-mem ctx.first ctx.others _)
run_strategy-IsChoice least_inflight env app ctx =
    IsChoice-of_mem ctx _ (least_by-mem _ ctx.first ctx.others)
run_strategy-IsChoice least_load env app ctx = pick_least_load-IsChoice env app ctx
run_strategy-IsChoice p2c env app ctx = IsChoice-of_mem ctx _ (pick_p2c-mem env app ctx)
run_strategy-IsChoice session_affinity env app ctx = affinity-IsChoice env app ctx ctx.session_key
run_strategy-IsChoice prefix_affinity env app ctx = affinity-IsChoice env app ctx ctx.prompt_prefix
