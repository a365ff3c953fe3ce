-- ===== src/Router/Poller/Names.antt =====
-- The composite keys of the poller tell instances apart.
use Prim.Native.Char.{Char, code}
use Prim.Native.String.{◌++◌}
use text.Mathlib.TextLemmas.{nil-append, cons-append}
use llm_router_server_dashbo.Base.{
  any, List, ◌≡◌, refl, sym, ap, ◌∙◌, String, Bool, true, not, ◌&&◌, Option, none, some, List, [],
  ◌∷◌, ◌==◌, if◌then◌else◌, str_eq, eq_iff, Bool-cases, inl, inr, and_parts,
}
use llm_router_server_dashbo.Router.Poller.{ScrapeTarget, composite, key_of}

-- No character is the one that joins the parts of a composite key.
abbrev pub no_nul : String → Bool
no_nul String.[] = true
no_nul (String.◌∷◌ c s) = not (code c == 0) && no_nul s

abbrev pub is_at : String → String → ScrapeTarget → Bool
is_at m i t = str_eq t.model_key m && str_eq t.instance_id i

-- The last target for an instance.
abbrev pub last_target : String → String → List ScrapeTarget → Option ScrapeTarget
last_target m i [] = none
last_target m i (t ∷ ts) = elim (last_target m i ts) [
  | some u ↦ some u
  | none ↦ if is_at m i t then some t else none
]

abbrev joined_at : String → String
joined_at i = String.◌∷◌ "\0" i

pub no_nul-head : (c : Char) (s : String) → no_nul (String.◌∷◌ c s) ≡ true → ¬ ("\0" ≡ c)
no_nul-head c s h e = let h' : no_nul (String.◌∷◌ "\0" s) ≡ true = rw (← e) at h in cc

pub composite-injective :
    (m m' : String) {i i' : String}
    → no_nul m ≡ true
    → no_nul m' ≡ true
    → composite m i ≡ composite m' i'
    → (m ≡ m') × (i ≡ i')
unfolding composite
composite-injective String.[] String.[] {i} {i'} h k e =
    let e' : joined_at i ≡ joined_at i' =
      sym (nil-append (joined_at i)) ∙ e ∙ nil-append (joined_at i') in
    (refl, (cc))
composite-injective String.[] (String.◌∷◌ c m') {i} {i'} h k e =
    let e' : joined_at i ≡ String.◌∷◌ c (m' ++ joined_at i') =
      sym (nil-append (joined_at i)) ∙ e ∙ cons-append c m' (joined_at i') in
    absurd (no_nul-head c m' k (cc))
composite-injective (String.◌∷◌ c m) String.[] {i} {i'} h k e =
    let e' : joined_at i' ≡ String.◌∷◌ c (m ++ joined_at i) =
      sym (nil-append (joined_at i')) ∙ sym e ∙ cons-append c m (joined_at i) in
    absurd (no_nul-head c m h (cc))
composite-injective (String.◌∷◌ c m) (String.◌∷◌ c' m') {i} {i'} h k e =
    let e' : String.◌∷◌ c (m ++ joined_at i) ≡ String.◌∷◌ c' (m' ++ joined_at i') =
      sym (cons-append c m (joined_at i)) ∙ e ∙ cons-append c' m' (joined_at i') in
    let rest : m ++ joined_at i ≡ m' ++ joined_at i' = cc in
    let (q, r) =
      composite-injective m m' (and_parts (not (code c == 0)) (no_nul m) h).1
        (and_parts (not (code c' == 0)) (no_nul m') k).1 rest in
    ((cc), r)

-- The composite key of a target is that of an instance exactly where both names are.
pub key_of-is_at :
    (m i : String) (t : ScrapeTarget)
    → no_nul m ≡ true
    → no_nul t.model_key ≡ true
    → str_eq (key_of t) (composite m i) ≡ is_at m i t
key_of-is_at m i t h k = elim (Bool-cases (is_at m i t)) [
  | inl here ↦
      let (p, q) = and_parts (str_eq t.model_key m) (str_eq t.instance_id i) here in
      let e : key_of t ≡ composite m i =
        ap (λ a. composite a t.instance_id) ((eq_iff t.model_key m).0 p)
        ∙ ap (composite m) ((eq_iff t.instance_id i).0 q) in
      (eq_iff (key_of t) (composite m i)).1 e ∙ sym here
  | inr other ↦ elim (Bool-cases (str_eq (key_of t) (composite m i))) [
    | inl same ↦
        let (p, q) =
          composite-injective t.model_key m k h ((eq_iff (key_of t) (composite m i)).0 same) in
        let p' = (eq_iff t.model_key m).1 p in
        let q' = (eq_iff t.instance_id i).1 q in
        let r : is_at m i t ≡ true = rw p' (rw q' refl) in cc
    | inr differ ↦ differ ∙ sym other
  ]
]

-- The group of a target has a name without that character.
abbrev pub IsPlain : ScrapeTarget → Type 0
IsPlain t = no_nul t.model_key ≡ true

-- The instance's group may sleep.
abbrev pub asks : String → String → List ScrapeTarget → Bool
asks m i = any (λ t. is_at m i t && t.sleeps)
