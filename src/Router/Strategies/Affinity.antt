-- ===== src/Router/Strategies/Affinity.antt =====
-- The home instance of affinity, and how far affinity may stray from the least load.
use mathlib.Core.List.Memᴰ
use native.Mathlib.Nat.{mod-lt}
use llm_router_server_dashbo.Base.{
  ℕ, suc, ◌%◌, ◌<◌, ◌≡◌, refl, ◌∙◌, ap, true, Bool-cases, if-intro, inl, inr, List, [], ◌∷◌, length,
  mem-get_or, All, All-map, arith, String, Memᴰ,
}
use llm_router_server_dashbo.Router.Load.{
  Load, finite, ◌⊕◌, load_le, load_le_trans, load_le-add, load_le-add_right,
}
use llm_router_server_dashbo.Router.State.{App}
use llm_router_server_dashbo.Router.Score.{Instance, score_instance}
use llm_router_server_dashbo.Router.Score.Least.{least_by-le}
use llm_router_server_dashbo.Router.Strategies.{
  SelectContext, Env, candidates, roster, pick_least_load, id_le, insert_by_id, sorted_by_id,
  home_instance, keeps_home, affinity_to,
}

mem-insert_by_id :
    (x : Instance) (ys : List Instance) {a : Instance}
    → Memᴰ a (insert_by_id x ys)
    → Memᴰ a (x ∷ ys)
unfolding insert_by_id
mem-insert_by_id x [] m = m
mem-insert_by_id x (y ∷ ys) {a} m = elim (Bool-cases (id_le x y)) [
  | inl e ↦ rw e at m
  | inr e ↦
      let later : Memᴰ a (y ∷ insert_by_id x ys) = rw e at m in
      elim (Memᴰ.cases_cons later) [
        | inl q ↦ Memᴰ.tail (Memᴰ.head q)
        | inr t ↦ elim (Memᴰ.cases_cons (mem-insert_by_id x ys t)) [
          | inl q ↦ Memᴰ.head q
          | inr u ↦ Memᴰ.tail (Memᴰ.tail u)
        ]
      ]
]

mem-sorted_by_id : (xs : List Instance) {a : Instance} → Memᴰ a (sorted_by_id xs) → Memᴰ a xs
unfolding sorted_by_id
mem-sorted_by_id [] m = m
mem-sorted_by_id (x ∷ xs) m = elim (Memᴰ.cases_cons (mem-insert_by_id x (sorted_by_id xs) m)) [
  | inl e ↦ Memᴰ.head e
  | inr t ↦ Memᴰ.tail (mem-sorted_by_id xs t)
]

length-insert_by_id :
    (x : Instance) (ys : List Instance) → length (insert_by_id x ys) ≡ suc (length ys)
unfolding insert_by_id
length-insert_by_id x [] = refl
length-insert_by_id x (y ∷ ys) = ground (arith, length-insert_by_id x ys)

length-sorted_by_id : (xs : List Instance) → length (sorted_by_id xs) ≡ length xs
unfolding sorted_by_id
length-sorted_by_id [] = refl
length-sorted_by_id (x ∷ xs) =
    length-insert_by_id x (sorted_by_id xs) ∙ ap suc (length-sorted_by_id xs)

length-roster_pos : (ctx : SelectContext) → 0 < length (roster ctx)
length-roster_pos ctx = go ctx.all_instances
  where
    go : (xs : List Instance) → 0 < length (elim xs [ [] ↦ candidates ctx | y ∷ ys ↦ y ∷ ys ])
    go [] = omega arith
    go (y ∷ ys) = omega arith

-- The home instance is one of the group's roster.
pub home_instance-mem :
    (env : Env) (ctx : SelectContext) (key : String) → Memᴰ (home_instance env ctx key) (roster ctx)
unfolding home_instance
home_instance-mem env ctx key =
    let ring = sorted_by_id (roster ctx) in
    mem-sorted_by_id (roster ctx) (
      mem-get_or ring (env.hash_key key % length ring) ctx.first (
        mod-lt (env.hash_key key) {m = length ring}
          (omega (arith, length-sorted_by_id (roster ctx), length-roster_pos ctx))))

-- A load within the margin of the best is within the margin of every load that is no better.
module _ (score : Instance → Load) (best r : Instance) (margin : ℕ) where
  within_margin :
      (l : List Instance)
      → load_le (score r) (score best ⊕ finite margin) ≡ true
      → All (λ x. load_le (score best) (score x) ≡ true) l
      → All (λ x. load_le (score r) (score x ⊕ finite margin) ≡ true) l
  within_margin l h =
      All-map
        (λ x b.
          load_le_trans (score r) (score best ⊕ finite margin) (score x ⊕ finite margin) h
            (load_le-add (score best) (score x) (finite margin) b))
        l

keeps_home-load :
    (env : Env) (app : App) (ctx : SelectContext) (home best : Instance)
    → keeps_home env app ctx home best ≡ true
    → load_le
        (score_instance env.now app ctx.model_key home)
        (score_instance env.now app ctx.model_key best ⊕ finite env.affinity_load_margin)
      ≡ true
unfolding keeps_home
keeps_home-load env app ctx home best h = ground arith

-- Affinity picks an instance whose load is within the margin of every candidate's.
pub affinity_to-load :
    (env : Env) (app : App) (ctx : SelectContext) (key : String)
    → All
        (λ x.
          load_le
            (score_instance env.now app ctx.model_key (affinity_to env app ctx key))
            (score_instance env.now app ctx.model_key x ⊕ finite env.affinity_load_margin)
          ≡ true)
        (candidates ctx)
unfolding affinity_to
affinity_to-load env app ctx key =
    let score = score_instance env.now app ctx.model_key in
    let home = home_instance env ctx key in
    let best = pick_least_load env app ctx in
    let least : All (λ x. load_le (score best) (score x) ≡ true) (candidates ctx) =
      unfold pick_least_load in least_by-le score ctx.first ctx.others in
    if-intro
      (λ r.
        All (λ x. load_le (score r) (score x ⊕ finite env.affinity_load_margin) ≡ true)
          (candidates ctx))
      (keeps_home env app ctx home best) home best
      (λ kept.
        within_margin score best home env.affinity_load_margin (candidates ctx)
          (keeps_home-load env app ctx home best kept) least)
      (λ _.
        within_margin score best best env.affinity_load_margin (candidates ctx)
          (load_le-add_right (score best) env.affinity_load_margin) least)
