-- ===== src/Router/Lora/Chain.antt =====
-- What the route chain of lora.py holds.
use llm_router_server_dashbo.Base.{
  suc, ◌≤◌, String, true, false, ◌≡◌, ◌≢◌, refl, sym, Option, none, some, List, [], ◌∷◌, any, All,
  All-map, Memᴰ, map, length, if◌then◌else◌, str_eq, eq_iff, arith, if-intro, is_some, subst,
}
use llm_router_server_dashbo.Base.Dict.{lookup}
use llm_router_server_dashbo.Router.Config.{Config}
use llm_router_server_dashbo.Router.Lora.{
  Target, resolve_model, fallback_targets, fallback_names, build_route_chain,
}

-- A target that a fallback may lead to: one that a listed name resolves to, of the wanted kind.
pub record IsFallback (config : Config) (kind : String) (names : List String) (t : Target)
    : Type 0 where
  pub name : String
  pub listed : Memᴰ name names
  pub resolved : resolve_model config name ≡ some t
  pub same_kind : t.kind ≡ kind

module _ (config : Config) (kind : String) where
  IsFallback-tail :
      (n : String) (names : List String) (t : Target)
      → IsFallback config kind names t
      → IsFallback config kind (n ∷ names) t
  IsFallback-tail n names t f = record {
    name = f.name;
    listed = Memᴰ.tail f.listed;
    resolved = f.resolved;
    same_kind = f.same_kind;
  }

  -- One round of the loop: the name is passed over, or its target is taken.
  fallback_round {ℓ} :
      (P : List Target → Type ℓ) (seen : List String) (n : String) (names : List String)
      → P (fallback_targets config kind seen names)
      → ((t : Target)
          → resolve_model config n ≡ some t
          → t.kind ≡ kind
          → any (λ s. str_eq s n) seen ≡ false
          → P (t ∷ fallback_targets config kind (t.route_key ∷ seen) names))
      → P (fallback_targets config kind seen (n ∷ names))
  unfolding fallback_targets
  fallback_round P seen n names skip take =
      if-intro P (any (λ s. str_eq s n) seen) _ _ (λ _. skip)
        (λ fresh. go fresh (resolve_model config n) refl)
    where
      go :
          any (λ s. str_eq s n) seen ≡ false
          → (o : Option Target) → resolve_model config n ≡ o
          → P (elim o [
            | none ↦ fallback_targets config kind seen names
            | some t ↦
                if str_eq t.kind kind
                then t ∷ fallback_targets config kind (t.route_key ∷ seen) names
                else fallback_targets config kind seen names
          ])
      go fresh none e = skip
      go fresh (some t) e =
          if-intro P (str_eq t.kind kind) _ _ (λ same. take t e ((eq_iff t.kind kind).0 same) fresh)
            (λ _. skip)

  fallback_targets-IsFallback :
      (seen names : List String)
      → All (IsFallback config kind names) (fallback_targets config kind seen names)
  fallback_targets-IsFallback seen [] = unfold fallback_targets in tt
  fallback_targets-IsFallback seen (n ∷ names) =
      fallback_round (All (IsFallback config kind (n ∷ names))) seen n names
        (widen seen (fallback_targets-IsFallback seen names))
        (λ t e same _. (
          record { name = n; listed = Memᴰ.head refl; resolved = e; same_kind = same },
          widen (t.route_key ∷ seen) (fallback_targets-IsFallback (t.route_key ∷ seen) names),
        ))
    where
      widen :
          (later : List String)
          → All (IsFallback config kind names) (fallback_targets config kind later names)
          → All (IsFallback config kind (n ∷ names)) (fallback_targets config kind later names)
      widen later = All-map (IsFallback-tail n names) (fallback_targets config kind later names)

  fallback_targets-length :
      (seen names : List String) → length (fallback_targets config kind seen names) ≤ length names
  fallback_targets-length seen [] = unfold fallback_targets in omega arith
  fallback_targets-length seen (n ∷ names) =
      fallback_round (λ l. length l ≤ suc (length names)) seen n names
        (omega (arith, fallback_targets-length seen names))
        (λ t _ _ _. omega (arith, fallback_targets-length (t.route_key ∷ seen) names))

  -- The name is a group's key.
  abbrev pub IsGroup : String → Type 0
  IsGroup name = is_some (lookup name config.llm_engines) ≡ true

  -- A group's key resolves to that group.
  pub resolve_model-group :
      (name : String) (t : Target)
      → IsGroup name
      → resolve_model config name ≡ some t
      → t.route_key ≡ name
  unfolding resolve_model
  resolve_model-group name t g h = ground arith

  -- Route keys that are distinct, and not among `seen`.
  abbrev pub DistinctFrom : List String → List Target → Type 0
  DistinctFrom seen [] = Unit
  DistinctFrom seen (t ∷ ts) =
      (any (λ s. str_eq s t.route_key) seen ≡ false) × DistinctFrom (t.route_key ∷ seen) ts

  fallback_targets-DistinctFrom :
      (seen names : List String)
      → All IsGroup names
      → DistinctFrom seen (fallback_targets config kind seen names)
  fallback_targets-DistinctFrom seen [] g = unfold fallback_targets in tt
  fallback_targets-DistinctFrom seen (n ∷ names) g =
      fallback_round (DistinctFrom seen) seen n names (fallback_targets-DistinctFrom seen names g.1)
        (λ t e _ fresh. (
          subst (λ k. any (λ s. str_eq s k) seen ≡ false) (sym (resolve_model-group n t g.0 e))
              fresh,
          fallback_targets-DistinctFrom (t.route_key ∷ seen) names g.1,
        ))

-- The chain starts with the primary target, every later one is a listed fallback of the primary's
-- kind, and there are at most as many of them as listed names.
pub build_route_chain-IsFallback :
    (config : Config) (primary : Target)
    → let names = fallback_names config primary.route_key in
      (rest : List Target) × (build_route_chain config primary ≡ primary ∷ rest)
      × All (IsFallback config primary.kind names) rest
      × (length rest ≤ length names)
unfolding build_route_chain
build_route_chain-IsFallback config primary =
    let names = fallback_names config primary.route_key in
    let seen = primary.route_key ∷ [] in
    (
      fallback_targets config primary.kind seen names,
      refl,
      fallback_targets-IsFallback config primary.kind seen names,
      fallback_targets-length config primary.kind seen names,
    )

-- Where every fallback names a group, no group stands twice in the chain.
pub build_route_chain-DistinctFrom :
    (config : Config) (primary : Target)
    → All (IsGroup config primary.kind) (fallback_names config primary.route_key)
    → DistinctFrom config primary.kind [] (build_route_chain config primary)
unfolding build_route_chain
build_route_chain-DistinctFrom config primary g =
    (refl, fallback_targets-DistinctFrom config primary.kind (primary.route_key ∷ []) _ g)

-- A fallback that is an adapter of the primary's own group puts that group into the chain again.
pub build_route_chain-repeats :
    (config : Config) (primary t : Target) (name : String)
    → fallback_names config primary.route_key ≡ name ∷ []
    → name ≢ primary.route_key
    → resolve_model config name ≡ some t
    → t.route_key ≡ primary.route_key
    → t.kind ≡ primary.kind
    → map (λ c. c.route_key) (build_route_chain config primary)
      ≡ primary.route_key ∷ primary.route_key ∷ []
unfolding build_route_chain fallback_targets
build_route_chain-repeats config primary t name only other e same_group same_kind =
    rw (only, fallback_targets)
      (ground (arith, eq_iff primary.route_key name, eq_iff t.kind primary.kind))
