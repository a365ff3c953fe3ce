-- ===== src/Router/Score/Least.antt =====
-- `_least_by` is the first minimum.
use llm_router_server_dashbo.Base.{
  ◌≡◌, refl, ◌∙◌, true, List, [], ◌∷◌, ◌++◌, All, All-map, All-append, Memᴰ, Bool-cases, inl, inr,
}
use mathlib.Core.List.Memᴰ
use mathlib.Core.List.{append-nil, append_assoc}
use llm_router_server_dashbo.Router.Load.{
  Load, load_lt, load_le, load_le_refl, load_le-of_lt, load_le-of_not-lt, load_lt-of_lt-le,
}
use llm_router_server_dashbo.Router.Score.{Instance, least_by}

-- `r` stands in the list, every element before it scores higher, none after it lower.
pub record IsFirstLeast (score : Instance → Load) (r : Instance) (l : List Instance) : Type 0 where
  pub before : List Instance
  pub after : List Instance
  pub split : l ≡ before ++ r ∷ after
  pub higher : All (λ x. load_lt (score r) (score x) ≡ true) before
  pub no_lower : All (λ x. load_le (score r) (score x) ≡ true) after

module _ (score : Instance → Load) where
  abbrev Above : Instance → Instance → Type 0
  Above r x = load_lt (score r) (score x) ≡ true

  abbrev NotBelow : Instance → Instance → Type 0
  NotBelow r x = load_le (score r) (score x) ≡ true

  Above-trans : (r b : Instance) → Above r b → (x : Instance) → NotBelow b x → Above r x
  Above-trans r b h x k = load_lt-of_lt-le (score r) (score b) (score x) h k

  -- `before` was beaten by `best`, `tied` did not beat it, and `rest` is to be seen.
  least_by_from :
      (before : List Instance) (best : Instance) (tied rest l : List Instance)
      → l ≡ before ++ best ∷ (tied ++ rest)
      → All (Above best) before
      → All (NotBelow best) tied
      → IsFirstLeast score (least_by score best rest) l
  unfolding least_by
  least_by_from before best tied [] l e h t = record {
    before = before;
    after = tied;
    split = e ∙ simp append-nil;
    higher = h;
    no_lower = t;
  }
  least_by_from before best tied (inst ∷ rest) l e h t =
      elim (Bool-cases (load_lt (score inst) (score best))) [
        | inl lower ↦ rw lower (
            least_by_from (before ++ best ∷ tied) inst [] rest l (e ∙ simp append_assoc)
              (All-append (Above inst) before (best ∷ tied)
                (All-map
                  (λ x b. Above-trans inst best lower x (load_le-of_lt (score best) (score x) b))
                  before h)
                (lower, All-map (Above-trans inst best lower) tied t))
              tt)
        | inr as_high ↦ rw as_high (
            least_by_from before best (tied ++ inst ∷ []) rest l (e ∙ simp append_assoc) h (
              All-append (NotBelow best) tied (inst ∷ []) t
                (load_le-of_not-lt (score inst) (score best) as_high, tt)))
      ]

  -- `_least_by` returns the first of the candidates whose score is minimal.
  pub least_by-IsFirstLeast :
      (best : Instance) (rest : List Instance)
      → IsFirstLeast score (least_by score best rest) (best ∷ rest)
  least_by-IsFirstLeast best rest = least_by_from [] best [] rest (best ∷ rest) refl tt tt

  IsFirstLeast-mem : {r : Instance} {l : List Instance} → IsFirstLeast score r l → Memᴰ r l
  IsFirstLeast-mem h = rw h.split (Memᴰ.append_right h.before (Memᴰ.head refl))

  pub least_by-mem :
      (best : Instance) (rest : List Instance) → Memᴰ (least_by score best rest) (best ∷ rest)
  least_by-mem best rest = IsFirstLeast-mem (least_by-IsFirstLeast best rest)

  IsFirstLeast-le : (r : Instance) (l : List Instance) → IsFirstLeast score r l → All (NotBelow r) l
  IsFirstLeast-le r l h = rw h.split (
      All-append (NotBelow r) h.before (r ∷ h.after)
        (All-map (λ x b. load_le-of_lt (score r) (score x) b) h.before h.higher)
        (load_le_refl (score r), h.no_lower))

  pub least_by-le :
      (best : Instance) (rest : List Instance)
      → All (NotBelow (least_by score best rest)) (best ∷ rest)
  least_by-le best rest = IsFirstLeast-le _ _ (least_by-IsFirstLeast best rest)
