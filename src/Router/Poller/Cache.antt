-- ===== src/Router/Poller/Cache.antt =====
-- What the cache holds after a round.
use mathlib.Core.List
use mathlib.Core.Option
use llm_router_server_dashbo.Base.{
  ◌≡◌, ◌⊎◌, refl, ap, ◌∙◌, String, Bool, true, false, ◌||◌, Option, none, some, List, [], ◌∷◌,
  if◌then◌else◌, or_default, str_eq, eq_iff, arith, All, All-append, any, Bool-cases, inl, inr,
}
use llm_router_server_dashbo.Base.Dict.{Dict, lookup, insert, lookup-insert}
use llm_router_server_dashbo.Router.Load.{Metrics}
use llm_router_server_dashbo.Router.State.{Address}
use llm_router_server_dashbo.Router.Poller.{
  LiveRow, PollInstance, PollGroup, target_of, Fleet, ScrapeTarget, targets, composite, key_of,
  backends, map_values, sleep_backends, marked, store_metric, new_cache, round, poll,
}
use llm_router_server_dashbo.Router.Poller.Names.{
  IsPlain, asks, no_nul, is_at, last_target, key_of-is_at,
}
use llm_router_server_dashbo.Router.Poller.Asked.{
  lookup-map_values, if-or, lookup-backends, lookup-sleep_backends,
}

or-true : (a : Bool) → (a || true) ≡ true
or-true a = ground arith

or_parts : (a b : Bool) → (a || b) ≡ false → (a ≡ false) × (b ≡ false)
or_parts a b h = ground arith

abbrev pub in_row : String → Option (Dict Metrics) → Option Metrics
in_row i none = none
in_row i (some row) = lookup i row

lookup-row : (i : String) (o : Option (Dict Metrics)) → lookup i (or_default o []) ≡ in_row i o
unfolding lookup
lookup-row i none = refl
lookup-row i (some row) = refl

abbrev pub cached : String → String → Dict (Dict Metrics) → Option Metrics
cached m i cache = in_row i (lookup m cache)

-- What an instance's own engine reports: at its last target, with the flag where its group may sleep.
abbrev pub reported :
    String → String → Fleet → List ScrapeTarget → Option ScrapeTarget → Option Metrics
reported m i fleet ts none = none
reported m i fleet ts (some t) = some (
    marked (if asks m i ts then some (fleet.is_asleep t.address) else none)
      (fleet.scrape t.address t.engine))

module _ (m i : String) (plain : no_nul m ≡ true) where
  cached-store_metric :
      (t : ScrapeTarget) (x : Metrics) (cache : Dict (Dict Metrics))
      → cached m i (store_metric t (some x) cache)
        ≡ (if is_at m i t then some x else cached m i cache)
  cached-store_metric t x cache =
      let row = or_default (lookup t.model_key cache) [] in
      ap (in_row i) (lookup-insert t.model_key m (insert t.instance_id x row) cache)
      ∙ elim (Bool-cases (str_eq t.model_key m)) [
        | inl same ↦ rw same (
            lookup-insert t.instance_id i x row
            ∙ ap (λ o. if str_eq t.instance_id i then some x else o)
                (lookup-row i (lookup t.model_key cache)
                  ∙ ap (λ k. in_row i (lookup k cache)) ((eq_iff t.model_key m).0 same)))
        | inr other ↦ rw other refl
      ]

  cached-store_other :
      (t : ScrapeTarget) (o : Option Metrics) (cache : Dict (Dict Metrics))
      → is_at m i t ≡ false
      → cached m i (store_metric t o cache) ≡ cached m i cache
  cached-store_other t none cache other = refl
  cached-store_other t (some y) cache other = cached-store_metric t y cache ∙ rw other refl

  abbrev entry : Dict Metrics → Dict Bool → String → Option Metrics
  entry flat sleeping k = Option.map (marked (lookup k sleeping)) (lookup k flat)

  cached-stored :
      (flat : Dict Metrics) (sleeping : Dict Bool) (x : Metrics) (t : ScrapeTarget)
      (cache : Dict (Dict Metrics))
      → entry flat sleeping (composite m i) ≡ some x
      → IsPlain t
      → cached m i (store_metric t (entry flat sleeping (key_of t)) cache)
        ≡ (if is_at m i t then some x else cached m i cache)
  cached-stored flat sleeping x t cache e h = elim (Bool-cases (is_at m i t)) [
    | inl here ↦
        let same : key_of t ≡ composite m i =
          (eq_iff (key_of t) (composite m i)).0 (key_of-is_at m i t plain h ∙ here) in
        ap (λ o. cached m i (store_metric t o cache)) (ap (entry flat sleeping) same ∙ e)
        ∙ cached-store_metric t x cache
    | inr other ↦ rw other (cached-store_other t (entry flat sleeping (key_of t)) cache other)
  ]

  cached-new_cache :
      (flat : Dict Metrics) (sleeping : Dict Bool) (x : Metrics) (ts : List ScrapeTarget)
      (cache : Dict (Dict Metrics))
      → Option.map (marked (lookup (composite m i) sleeping)) (lookup (composite m i) flat) ≡ some x
      → All IsPlain ts
      → cached m i (new_cache flat sleeping ts cache)
        ≡ (if any (is_at m i) ts then some x else cached m i cache)
  unfolding new_cache
  cached-new_cache flat sleeping x [] cache e h = refl
  cached-new_cache flat sleeping x (t ∷ ts) cache e (h, hs) =
      cached-new_cache flat sleeping x ts (store_metric t (entry flat sleeping (key_of t)) cache) e
        hs
      ∙ ap (λ o. if any (is_at m i) ts then some x else o)
          (cached-stored flat sleeping x t cache e h)
      ∙ if-or (is_at m i t) (any (is_at m i) ts) (some x) (cached m i cache)

  absent-new_cache :
      (flat : Dict Metrics) (sleeping : Dict Bool) (ts : List ScrapeTarget)
      (cache : Dict (Dict Metrics))
      → any (is_at m i) ts ≡ false
      → cached m i (new_cache flat sleeping ts cache) ≡ cached m i cache
  unfolding new_cache
  absent-new_cache flat sleeping [] cache none_here = refl
  absent-new_cache flat sleeping (t ∷ ts) cache none_here =
      let (here, later) = or_parts (is_at m i t) (any (is_at m i) ts) none_here in
      absent-new_cache flat sleeping ts (store_metric t (entry flat sleeping (key_of t)) cache)
        later
      ∙ cached-store_other t (entry flat sleeping (key_of t)) cache here

  last_target-any :
      (ts : List ScrapeTarget)
      → (last_target m i ts ≡ none) × (any (is_at m i) ts ≡ false)
        ⊎ ((t : ScrapeTarget) × (last_target m i ts ≡ some t) × (any (is_at m i) ts ≡ true))
  last_target-any [] = inl (refl, refl)
  last_target-any (t ∷ ts) = elim (last_target-any ts) [
    | inl (e, a) ↦
        rw (e, a)
          (elim (Bool-cases (is_at m i t)) [
            | inl h ↦ rw h (inr (t, refl, refl))
            | inr h ↦ rw h (inl (refl, refl))
          ])
    | inr (u, e, a) ↦ rw (e, a) (inr (u, refl, or-true (is_at m i t)))
  ]

  cached-nil : cached m i [] ≡ none
  unfolding lookup
  cached-nil = refl

  asleep-asked :
      (asleep : Address → Bool) (known : Dict (Address × String)) (v : Address × String)
      (ts : List ScrapeTarget)
      → lookup (composite m i) known ≡ some v
      → All IsPlain ts
      → lookup (composite m i) (map_values asleep (sleep_backends known ts []))
        ≡ (if asks m i ts then some (asleep v.0) else none)
  unfolding lookup
  asleep-asked asleep known v ts found h =
      lookup-map_values asleep (composite m i) (sleep_backends known ts [])
      ∙ ap (Option.map asleep) (lookup-sleep_backends m i plain known v ts [] found h)
      ∙ elim (Bool-cases (asks m i ts)) [
        | inl yes_asks ↦ rw yes_asks refl
        | inr no_asks ↦ rw no_asks refl
      ]

  cached-round :
      (fleet : Fleet) (ts : List ScrapeTarget)
      → All IsPlain ts
      → cached m i (round fleet ts) ≡ reported m i fleet ts (last_target m i ts)
  unfolding round
  cached-round fleet ts h = elim (last_target-any ts) [
    | inl (e, a) ↦ rw e (absent-new_cache _ _ ts [] a ∙ cached-nil)
    | inr (t, e, a) ↦
        let known = backends ts [] in
        let found : lookup (composite m i) known ≡ some (t.address, t.engine) =
          lookup-backends m i plain ts [] h ∙ rw e refl in
        let flat = map_values (λ v. fleet.scrape v.0 v.1) known in
        let sleeping = map_values fleet.is_asleep (sleep_backends known ts []) in
        let flag : Option Bool = if asks m i ts then some (fleet.is_asleep t.address) else none in
        let scraped : lookup (composite m i) flat ≡ some (fleet.scrape t.address t.engine) =
          lookup-map_values (λ v. fleet.scrape v.0 v.1) (composite m i) known
          ∙ ap (Option.map (λ v. fleet.scrape v.0 v.1)) found in
        let asleep = asleep-asked fleet.is_asleep known (t.address, t.engine) ts found h in
        let at_key : entry flat sleeping (composite m i)
            ≡ some (marked flag (fleet.scrape t.address t.engine)) =
          ap (λ o. Option.map (marked o) (lookup (composite m i) flat)) asleep
          ∙ ap (Option.map (marked flag)) scraped in
        rw e (
          cached-new_cache flat sleeping (marked flag (fleet.scrape t.address t.engine)) ts []
            at_key h
          ∙ rw a refl)
  ]

  targets-IsPlain :
      (live : List LiveRow) (groups : Dict PollGroup)
      → All (λ (g : String × PollGroup). no_nul g.0 ≡ true) groups
      → All IsPlain (targets live groups)
  unfolding targets
  targets-IsPlain live [] h = tt
  targets-IsPlain live ((k, g) ∷ rest) (h, hs) =
      All-append IsPlain _ (targets live rest) (each g.instances) (targets-IsPlain live rest hs)
    where
      each : (xs : List PollInstance) → All IsPlain (List.map (target_of live k g) xs)
      each [] = tt
      each (x ∷ xs) = (h, each xs)

  -- After a round, routing finds for each instance exactly what that instance's own engine answered at
  -- its own address, the live one if one is published, and flagged as asleep only if its group may sleep
  -- and it answered so: no answer is taken for another instance's, even of an equal id in another group,
  -- and nothing is left of an instance that the configuration has no more. The group names hold no NUL.
  pub cached-poll :
      (fleet : Fleet) (live : List LiveRow) (groups : Dict PollGroup)
      → All (λ (g : String × PollGroup). no_nul g.0 ≡ true) groups
      → cached m i (poll fleet live groups)
        ≡ reported m i fleet (targets live groups) (last_target m i (targets live groups))
  unfolding poll
  cached-poll fleet live groups h =
      cached-round fleet (targets live groups) (targets-IsPlain live groups h)
