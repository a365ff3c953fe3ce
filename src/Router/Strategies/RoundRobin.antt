-- ===== src/Router/Strategies/RoundRobin.antt =====
-- Round robin serves every candidate.
use llm_router_server_dashbo.Base.{
  ℕ, zero, suc, ◌+◌, ◌-◌, ◌%◌, ◌<◌, ◌≡◌, sym, ◌∙◌, ap, leb, Bool-cases, inl, inr, List, [], ◌∷◌,
  length, get_or, or_default, arith, eq_refl, if◌then◌else◌,
}
use native.Mathlib.Nat.{mod-add-mod, mod-eq_of_lt, mod-lt, add-mod_right}
use llm_router_server_dashbo.Base.Dict.{lookup, lookup-insert}
use llm_router_server_dashbo.Router.State.{App}
use llm_router_server_dashbo.Router.Score.{Instance}
use llm_router_server_dashbo.Router.Strategies.{
  SelectContext, candidates, at_modulo, pick_round_robin,
}

-- The instances of `k` picks in a row, and the state they leave.
pub picks : ℕ → App → SelectContext → List Instance
picks zero app ctx = []
picks (suc k) app ctx = let (inst, app') = pick_round_robin app ctx in inst ∷ picks k app' ctx

counter : App → SelectContext → ℕ
counter app ctx = or_default (lookup ctx.model_key app.rr_counters) 0

counter-pick :
    (app : App) (ctx : SelectContext)
    → counter (pick_round_robin app ctx).1 ctx ≡ counter app ctx + 1
unfolding counter pick_round_robin
counter-pick app ctx = simp (lookup-insert, eq_refl)

-- The i-th pick is the candidate that the counter, i steps on, points at.
picks_at :
    (k i : ℕ) (app : App) (ctx : SelectContext)
    → i < k
    → get_or (picks k app ctx) i ctx.first ≡ at_modulo ctx.first ctx.others (counter app ctx + i)
unfolding picks
picks_at zero i app ctx h = absurd (omega arith)
picks_at (suc k) zero app ctx h =
    unfold pick_round_robin counter in ap (at_modulo ctx.first ctx.others) (omega arith)
picks_at (suc k) (suc i) app ctx h =
    picks_at k i (pick_round_robin app ctx).1 ctx (omega arith)
    ∙ ap (at_modulo ctx.first ctx.others) (omega (arith, counter-pick app ctx))

-- How many picks after a counter of `c` the position `j` of `n` comes up.
abbrev wait_for : ℕ → ℕ → ℕ → ℕ
wait_for n c j = if leb (c % n) j then j - c % n else j + n - c % n

positive : (n j : ℕ) → j < n → 0 < n
positive n j h = omega arith

wait_for_lem : (n c j : ℕ) → j < n → (c + wait_for n c j) % n ≡ j
wait_for_lem n c j h = sym (mod-add-mod c n (wait_for n c j)) ∙ elim (Bool-cases (leb (c % n) j)) [
  | inl ahead ↦ let lands : c % n + wait_for n c j ≡ j = ground arith in rw lands (mod-eq_of_lt h)
  | inr wraps ↦
      let lands : c % n + wait_for n c j ≡ j + n = ground (arith, mod-lt c (positive n j h)) in
      rw lands (add-mod_right j n ∙ mod-eq_of_lt h)
]

wait_for-lt : (n c j : ℕ) → j < n → wait_for n c j < n
wait_for-lt n c j h = ground arith

-- Of as many picks in a row as there are candidates, one is the candidate at any position asked for.
pub round_robin_fair :
    (app : App) (ctx : SelectContext) (j : ℕ)
    → j < length (candidates ctx)
    → (i : ℕ) × (i < length (candidates ctx))
      × (get_or (picks (length (candidates ctx)) app ctx) i ctx.first
          ≡ get_or (candidates ctx) j ctx.first)
round_robin_fair app ctx j h =
    let n = length (candidates ctx) in
    let i = wait_for n (counter app ctx) j in
    (
      i,
      wait_for-lt n (counter app ctx) j h,
      picks_at n i app ctx (wait_for-lt n (counter app ctx) j h)
          ∙ ap (λ k. get_or (candidates ctx) k ctx.first) (wait_for_lem n (counter app ctx) j h),
    )
