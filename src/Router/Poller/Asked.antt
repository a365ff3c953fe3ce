-- ===== src/Router/Poller/Asked.antt =====
-- What a round asks, by the composite key of an instance.
use mathlib.Core.Option
use llm_router_server_dashbo.Base.{
  ◌≡◌, refl, ap, ◌∙◌, String, Bool, true, false, ◌&&◌, ◌||◌, Option, none, some, List, [], ◌∷◌,
  if◌then◌else◌, str_eq, eq_iff, All, Bool-cases, Option-cases, inl, inr,
}
use llm_router_server_dashbo.Base.Dict.{Dict, lookup, insert, lookup-insert}
use llm_router_server_dashbo.Router.State.{Address}
use llm_router_server_dashbo.Router.Poller.{
  ScrapeTarget, composite, key_of, backends, map_values, ask, sleep_backends,
}
use llm_router_server_dashbo.Router.Poller.Names.{
  IsPlain, asks, no_nul, is_at, last_target, key_of-is_at,
}

module _ {V W : Type 0} where
  pub lookup-map_values :
      (f : V → W) (k : String) (d : Dict V) → lookup k (map_values f d) ≡ Option.map f (lookup k d)
  unfolding lookup map_values
  lookup-map_values f k [] = refl
  lookup-map_values f k ((j, v) ∷ d) = elim (Bool-cases (str_eq j k)) [
    | inl e ↦ rw e refl
    | inr e ↦ rw e (lookup-map_values f k d)
  ]

pub if-or {ℓ} :
    {A : Type ℓ} (a b : Bool) (x y : A)
    → (if b then x else if a then x else y) ≡ (if a || b then x else y)
if-or true true x y = refl
if-or true false x y = refl
if-or false true x y = refl
if-or false false x y = refl

module _ (m i : String) (plain : no_nul m ≡ true) where
  abbrev pub or_last {ℓ} :
      {V : Type ℓ} → (ScrapeTarget → V) → Option V → Option ScrapeTarget → Option V
  or_last f v none = v
  or_last f v (some t) = some (f t)

  or_last-cons {ℓ} :
      {V : Type ℓ} (f : ScrapeTarget → V) (v : Option V) (t : ScrapeTarget) (ts : List ScrapeTarget)
      → or_last f (if is_at m i t then some (f t) else v) (last_target m i ts)
        ≡ or_last f v (last_target m i (t ∷ ts))
  or_last-cons f v t ts = elim (Option-cases (last_target m i ts)) [
    | inl e ↦ rw e (elim (Bool-cases (is_at m i t)) [ inl h ↦ rw h refl | inr h ↦ rw h refl ])
    | inr (u, e) ↦ rw e refl
  ]

  pub lookup-backends :
      (ts : List ScrapeTarget) (d : Dict (Address × String))
      → All IsPlain ts
      → lookup (composite m i) (backends ts d)
        ≡ or_last (λ t. (t.address, t.engine)) (lookup (composite m i) d) (last_target m i ts)
  unfolding backends
  lookup-backends [] d h = refl
  lookup-backends (t ∷ ts) d (h, hs) =
      let step : lookup (composite m i) (insert (key_of t) (t.address, t.engine) d)
          ≡ (if is_at m i t then some (t.address, t.engine) else lookup (composite m i) d) =
        lookup-insert (key_of t) (composite m i) (t.address, t.engine) d
        ∙ rw (key_of-is_at m i t plain h) refl in
      lookup-backends ts (insert (key_of t) (t.address, t.engine) d) hs
      ∙ ap (λ v. or_last (λ u. (u.address, u.engine)) v (last_target m i ts)) step
      ∙ or_last-cons (λ u. (u.address, u.engine)) (lookup (composite m i) d) t ts

  lookup-ask :
      (known : Dict (Address × String)) (v : Address × String) (t : ScrapeTarget) (d : Dict Address)
      → lookup (composite m i) known ≡ some v
      → IsPlain t
      → lookup (composite m i) (ask t (lookup (key_of t) known) d)
        ≡ (if is_at m i t && t.sleeps then some v.0 else lookup (composite m i) d)
  lookup-ask known v t d e h = elim (Bool-cases (is_at m i t)) [
    | inl here ↦
        let same : key_of t ≡ composite m i =
          (eq_iff (key_of t) (composite m i)).0 (key_of-is_at m i t plain h ∙ here) in
        let found : lookup (key_of t) known ≡ some v = ap (λ k. lookup k known) same ∙ e in
        rw (here, found)
          (elim (Bool-cases t.sleeps) [
            | inl yes_sleeps ↦ rw yes_sleeps (
                lookup-insert (key_of t) (composite m i) v.0 d
                ∙ rw (key_of-is_at m i t plain h ∙ here) refl)
            | inr no_sleep ↦ rw no_sleep refl
          ])
    | inr other ↦
        let differ = key_of-is_at m i t plain h ∙ other in
        rw other (elim (Option-cases (lookup (key_of t) known)) [
          | inl absent ↦ rw absent refl
          | inr (w, found) ↦ rw found (elim (Bool-cases t.sleeps) [
            | inl yes_sleeps ↦
                rw yes_sleeps (lookup-insert (key_of t) (composite m i) w.0 d ∙ rw differ refl)
            | inr no_sleep ↦ rw no_sleep refl
          ])
        ])
  ]

  pub lookup-sleep_backends :
      (known : Dict (Address × String)) (v : Address × String) (ts : List ScrapeTarget)
      (d : Dict Address)
      → lookup (composite m i) known ≡ some v
      → All IsPlain ts
      → lookup (composite m i) (sleep_backends known ts d)
        ≡ (if asks m i ts then some v.0 else lookup (composite m i) d)
  unfolding sleep_backends
  lookup-sleep_backends known v [] d e h = refl
  lookup-sleep_backends known v (t ∷ ts) d e (h, hs) =
      lookup-sleep_backends known v ts (ask t (lookup (key_of t) known) d) e hs
      ∙ ap (λ o. if asks m i ts then some v.0 else o) (lookup-ask known v t d e h)
      ∙ if-or (is_at m i t && t.sleeps) (asks m i ts) (some v.0) (lookup (composite m i) d)
