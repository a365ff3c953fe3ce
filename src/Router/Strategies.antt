-- ===== src/Router/Strategies.antt =====
-- The strategies of apps/router-server/src/llm_router/routing_strategies.py. Each takes the
-- candidates as a first one and the rest: its callers guarantee that there is one.
pub mod RoundRobin
pub mod Affinity
pub mod Choice
use Prim.Native.String.{compare}
use Prim.Native.Nat.{Ordering}
use llm_router_server_dashbo.Base.{
  ℕ, suc, ◌+◌, ◌-◌, ◌%◌, String, Bool, true, false, not, ◌&&◌, Option, none, some, List, [], ◌∷◌,
  length, any, get_or, or_default, ◌==◌, if◌then◌else◌, str_eq,
}
use llm_router_server_dashbo.Base.Dict.{lookup, insert}
use llm_router_server_dashbo.Router.Load.{Load, finite, ◌⊕◌, load_le}
use llm_router_server_dashbo.Router.State.{App, is_backend_in_cooldown}
use llm_router_server_dashbo.Router.Score.{Instance, score_instance, inflight_score, least_by}

-- What a pick reads besides `app`: the clock, `_hash_key` (sha1), the margin of the environment in
-- thousandths, and two draws of the random generator as natural numbers.
pub record Env : Type 0 where
  pub now : ℕ
  pub hash_key : String → ℕ
  pub affinity_load_margin : ℕ
  pub draw : ℕ
  pub second_draw : ℕ

pub data Strategy : Type 0 where
  round_robin random least_inflight least_load p2c session_affinity prefix_affinity : Strategy

-- STRATEGIES.get(name)
unfoldable pub strategy_of_name : String → Option Strategy
strategy_of_name name =
    if str_eq name "round_robin"
    then some round_robin
    else if str_eq name "random"
    then some random
    else if str_eq name "least_inflight"
    then some least_inflight
    else if str_eq name "least_load"
    then some least_load
    else if str_eq name "p2c"
    then some p2c
    else if str_eq name "session_affinity"
    then some session_affinity
    else if str_eq name "prefix_affinity"
    then some prefix_affinity
    else none

pub record SelectContext : Type 0 where
  pub model_key : String
  pub first : Instance
  pub others : List Instance
  pub all_instances : List Instance
  pub session_key : Option String
  pub prompt_prefix : Option String

abbrev pub candidates : SelectContext → List Instance
candidates ctx = ctx.first ∷ ctx.others

-- xs[i % len(xs)] of a list that is not empty
abbrev pub at_modulo : Instance → List Instance → ℕ → Instance
at_modulo x xs i = get_or (x ∷ xs) (i % suc (length xs)) x

unfoldable pub pick_round_robin : App → SelectContext → Instance × App
pick_round_robin app ctx =
    let n = or_default (lookup ctx.model_key app.rr_counters) 0 in
    (
      at_modulo ctx.first ctx.others n,
      record app { rr_counters = insert ctx.model_key (n + 1) app.rr_counters },
    )

-- random.choice
unfoldable pub pick_random : Env → SelectContext → Instance
pick_random env ctx = at_modulo ctx.first ctx.others env.draw

unfoldable pub pick_least_inflight : Env → App → SelectContext → Instance
pick_least_inflight env app ctx =
    least_by (inflight_score env.now app ctx.model_key) ctx.first ctx.others

unfoldable pub pick_least_load : Env → App → SelectContext → Instance
pick_least_load env app ctx =
    least_by (score_instance env.now app ctx.model_key) ctx.first ctx.others

-- random.sample(candidates, 2) takes two distinct positions: the second is drawn among the others.
abbrev pub second_position : ℕ → ℕ → ℕ → ℕ
second_position n i draw = let j = draw % (n - 1) in if j == i then n - 1 else j

unfoldable pub pick_p2c : Env → App → SelectContext → Instance
pick_p2c env app ctx =
    let n = length (candidates ctx) in
    let i = env.draw % n in
    let j = second_position n i env.second_draw in
    least_by (score_instance env.now app ctx.model_key) (get_or (candidates ctx) i ctx.first)
      (get_or (candidates ctx) j ctx.first ∷ [])

-- sorted(roster, key=lambda i: i["id"]), which is stable
abbrev pub id_le : Instance → Instance → Bool
id_le a b = elim (compare a.id b.id) [ Ordering.gt ↦ false | _ ↦ true ]

unfoldable pub insert_by_id : Instance → List Instance → List Instance
insert_by_id x [] = x ∷ []
insert_by_id x (y ∷ ys) = if id_le x y then x ∷ (y ∷ ys) else y ∷ insert_by_id x ys

unfoldable pub sorted_by_id : List Instance → List Instance
unfolding insert_by_id
sorted_by_id [] = []
sorted_by_id (x ∷ xs) = insert_by_id x (sorted_by_id xs)

-- ctx.all_instances or ctx.candidates
abbrev pub roster : SelectContext → List Instance
roster ctx = elim ctx.all_instances [ [] ↦ candidates ctx | x ∷ xs ↦ x ∷ xs ]

unfoldable pub home_instance : Env → SelectContext → String → Instance
unfolding sorted_by_id
home_instance env ctx key =
    let ring = sorted_by_id (roster ctx) in get_or ring (env.hash_key key % length ring) ctx.first

-- The home instance is kept where it is a candidate out of cooldown and near the least load.
unfoldable pub keeps_home : Env → App → SelectContext → Instance → Instance → Bool
keeps_home env app ctx home best =
    any (λ i. str_eq i.id home.id) (candidates ctx)
    && not (is_backend_in_cooldown env.now app ctx.model_key home.id)
    && load_le (score_instance env.now app ctx.model_key home)
        (score_instance env.now app ctx.model_key best ⊕ finite env.affinity_load_margin)

unfoldable pub affinity_to : Env → App → SelectContext → String → Instance
unfolding pick_least_load home_instance keeps_home
affinity_to env app ctx key =
    let home = home_instance env ctx key in
    let best = pick_least_load env app ctx in
    if keeps_home env app ctx home best then home else best

-- `if not key` holds of a missing key and of an empty one.
unfoldable pub affinity : Env → App → SelectContext → Option String → Instance
unfolding affinity_to
affinity env app ctx none = pick_least_load env app ctx
affinity env app ctx (some key) =
    if str_eq key "" then pick_least_load env app ctx else affinity_to env app ctx key

-- fn(ctx)
unfoldable pub run_strategy : Strategy → Env → App → SelectContext → Instance × App
unfolding pick_round_robin pick_random pick_least_inflight pick_least_load pick_p2c affinity
run_strategy round_robin env app ctx = pick_round_robin app ctx
run_strategy random env app ctx = (pick_random env ctx, app)
run_strategy least_inflight env app ctx = (pick_least_inflight env app ctx, app)
run_strategy least_load env app ctx = (pick_least_load env app ctx, app)
run_strategy p2c env app ctx = (pick_p2c env app ctx, app)
run_strategy session_affinity env app ctx = (affinity env app ctx ctx.session_key, app)
run_strategy prefix_affinity env app ctx = (affinity env app ctx ctx.prompt_prefix, app)
