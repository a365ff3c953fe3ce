-- ===== src/Base/Dict.antt =====
-- Python's `dict` with text keys: an association list in insertion order.
use llm_router_server_dashbo.Base.Tests.{if◌then◌else◌, Bool-cases}
use Prim.Native.String.{String}
use mathlib.Core.Path.{◌≡◌, refl, sym, ap, ◌∙◌}
use mathlib.Core.Bool.{Bool, false}
use mathlib.Core.Logic.{inl, inr}
use mathlib.Core.Option.{Option, none, some}
use mathlib.Core.List.{List, [], ◌∷◌}
use native.Mathlib.Omega.{arith}
use text.Mathlib.Text.{◌==◌}
use text.Mathlib.TextEquality.{eq_iff}

abbrev pub Dict {ℓ} : Type ℓ → Type ℓ
Dict V = List (String × V)

module _ {ℓ} {V : Type ℓ} where
  -- d.get(k)
  unfoldable pub lookup : String → Dict V → Option V
  lookup k [] = none
  lookup k ((j, v) ∷ d) = if j == k then some v else lookup k d

  -- d[k] = v: in place where the key is there, else at the end.
  unfoldable pub insert : String → V → Dict V → Dict V
  insert k v [] = (k, v) ∷ []
  insert k v ((j, w) ∷ d) = if j == k then (j, v) ∷ d else (j, w) ∷ insert k v d

  -- d.pop(k, None)
  unfoldable pub remove : String → Dict V → Dict V
  remove k [] = []
  remove k ((j, w) ∷ d) = let rest = remove k d in if j == k then rest else (j, w) ∷ rest

  pub lookup-insert :
      (k j : String) (v : V) (d : Dict V)
      → lookup j (insert k v d) ≡ (if k == j then some v else lookup j d)
  unfolding lookup insert
  lookup-insert k j v [] = refl
  lookup-insert k j v ((i, w) ∷ d) =
      ground (arith, eq_iff k j, eq_iff i k, eq_iff i j, lookup-insert k j v d)

  pub lookup-remove :
      (k j : String) (d : Dict V) → lookup j (remove k d) ≡ (if k == j then none else lookup j d)
  unfolding lookup remove
  lookup-remove k j [] = ground arith
  lookup-remove k j ((i, w) ∷ d) =
      ground (arith, eq_iff k j, eq_iff i k, eq_iff i j, lookup-remove k j d)

  -- No key stands twice.
  abbrev pub HasDistinctKeys : Dict V → Type ℓ
  HasDistinctKeys [] = Unit
  HasDistinctKeys ((k, v) ∷ rest) = (lookup k rest ≡ none) × HasDistinctKeys rest

  -- {k: v for k, v in d.items() if p(v)}
  unfoldable pub keep : (V → Bool) → Dict V → Dict V
  keep p [] = []
  keep p ((k, v) ∷ d) = let rest = keep p d in if p v then (k, v) ∷ rest else rest

  abbrev pub passing : (V → Bool) → Option V → Option V
  passing p none = none
  passing p (some v) = if p v then some v else none

  pub lookup-keep :
      (p : V → Bool) (k : String) (d : Dict V)
      → HasDistinctKeys d
      → lookup k (keep p d) ≡ passing p (lookup k d)
  unfolding keep lookup
  lookup-keep p k [] h = refl
  lookup-keep p k ((j, v) ∷ d) (fresh, h) = elim (Bool-cases (j == k)) [
    | inl same ↦ elim (Bool-cases (p v)) [
      | inl kept ↦ rw kept (rw same (rw kept refl))
      | inr gone ↦
          let e = ap (λ i. lookup i d) ((eq_iff j k).0 same) in
          rw gone (rw same (rw gone (lookup-keep p k d h ∙ ap (passing p) (sym e ∙ fresh))))
    ]
    | inr differ ↦ elim (Bool-cases (p v)) [
      | inl kept ↦ rw kept (rw differ (lookup-keep p k d h))
      | inr gone ↦ rw gone (rw differ (lookup-keep p k d h))
    ]
  ]

  pub keep-HasDistinctKeys :
      (p : V → Bool) (d : Dict V) → HasDistinctKeys d → HasDistinctKeys (keep p d)
  unfolding keep
  keep-HasDistinctKeys p [] h = tt
  keep-HasDistinctKeys p ((k, v) ∷ d) (fresh, h) = elim (Bool-cases (p v)) [
    | inl kept ↦ rw kept (lookup-keep p k d h ∙ ap (passing p) fresh, keep-HasDistinctKeys p d h)
    | inr gone ↦ rw gone (keep-HasDistinctKeys p d h)
  ]

  pub insert-HasDistinctKeys :
      (k : String) (v : V) (d : Dict V) → HasDistinctKeys d → HasDistinctKeys (insert k v d)
  unfolding insert lookup
  insert-HasDistinctKeys k v [] h = (refl, tt)
  insert-HasDistinctKeys k v ((j, w) ∷ d) (fresh, h) = elim (Bool-cases (j == k)) [
    | inl same ↦ rw same (fresh, h)
    | inr differ ↦
        let other : (k == j) ≡ false = ground (arith, eq_iff k j, eq_iff j k, differ) in
        rw differ (lookup-insert k j v d ∙ rw other fresh, insert-HasDistinctKeys k v d h)
  ]

  pub remove-HasDistinctKeys :
      (k : String) (d : Dict V) → HasDistinctKeys d → HasDistinctKeys (remove k d)
  unfolding remove
  remove-HasDistinctKeys k [] h = tt
  remove-HasDistinctKeys k ((j, w) ∷ d) (fresh, h) = elim (Bool-cases (j == k)) [
    | inl same ↦ rw same (remove-HasDistinctKeys k d h)
    | inr differ ↦ rw differ (
      lookup-remove k j d ∙ elim (Bool-cases (k == j)) [ inl e ↦ rw e refl | inr e ↦ rw e fresh ],
      remove-HasDistinctKeys k d h,
    )
  ]

pub ruleset dict_laws = (lookup-insert, lookup-remove)
