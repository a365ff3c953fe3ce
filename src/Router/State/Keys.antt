-- ===== src/Router/State/Keys.antt =====
-- A backend's key belongs to one model and instance, where no model's name has a colon.
use Prim.Native.Char.{Char, code}
use Prim.Native.String.{◌++◌}
use text.Mathlib.TextLemmas.{nil-append, cons-append, append_assoc}
use llm_router_server_dashbo.Base.{
  ◌≡◌, refl, sym, ap, ◌∙◌, String, Bool, true, not, ◌&&◌, ◌==◌, str_eq, eq_iff, Bool-cases, inl,
  inr, and_parts,
}
use llm_router_server_dashbo.Router.State.{make_backend_key}

abbrev pub no_colon : String → Bool
no_colon String.[] = true
no_colon (String.◌∷◌ c s) = not (code c == 58) && no_colon s

abbrev pub is_backend : String → String → String → String → Bool
is_backend m i m' i' = str_eq m' m && str_eq i' i

abbrev behind : String → String
behind i = String.◌∷◌ ":" (String.◌∷◌ ":" i)

colons : (i : String) → "::" ++ i ≡ behind i
colons i =
    cons-append ":" ":" i
    ∙ ap (String.◌∷◌ ":") (cons-append ":" "" i ∙ ap (String.◌∷◌ ":") (nil-append i))

key_as_behind : (m i : String) → make_backend_key m i ≡ m ++ behind i
unfolding make_backend_key
key_as_behind m i = append_assoc m "::" i ∙ ap (λ t. m ++ t) (colons i)

no_colon-head : (c : Char) (s : String) → no_colon (String.◌∷◌ c s) ≡ true → ¬ (":" ≡ c)
no_colon-head c s h e = let h' : no_colon (String.◌∷◌ ":" s) ≡ true = rw (← e) at h in cc

behind-injective :
    (m m' : String) {i i' : String}
    → no_colon m ≡ true
    → no_colon m' ≡ true
    → m ++ behind i ≡ m' ++ behind i'
    → (m ≡ m') × (i ≡ i')
behind-injective String.[] String.[] {i} {i'} h k e =
    let e' : behind i ≡ behind i' = sym (nil-append (behind i)) ∙ e ∙ nil-append (behind i') in
    (refl, (cc))
behind-injective String.[] (String.◌∷◌ c m') {i} {i'} h k e =
    let e' : behind i ≡ String.◌∷◌ c (m' ++ behind i') =
      sym (nil-append (behind i)) ∙ e ∙ cons-append c m' (behind i') in
    absurd (no_colon-head c m' k (cc))
behind-injective (String.◌∷◌ c m) String.[] {i} {i'} h k e =
    let e' : behind i' ≡ String.◌∷◌ c (m ++ behind i) =
      sym (nil-append (behind i')) ∙ sym e ∙ cons-append c m (behind i) in
    absurd (no_colon-head c m h (cc))
behind-injective (String.◌∷◌ c m) (String.◌∷◌ c' m') {i} {i'} h k e =
    let e' : String.◌∷◌ c (m ++ behind i) ≡ String.◌∷◌ c' (m' ++ behind i') =
      sym (cons-append c m (behind i)) ∙ e ∙ cons-append c' m' (behind i') in
    let rest : m ++ behind i ≡ m' ++ behind i' = cc in
    let (q, r) =
      behind-injective m m' (and_parts (not (code c == 58)) (no_colon m) h).1
        (and_parts (not (code c' == 58)) (no_colon m') k).1 rest in
    ((cc), r)

pub make_backend_key-is_backend :
    (m i m' i' : String)
    → no_colon m ≡ true
    → no_colon m' ≡ true
    → str_eq (make_backend_key m' i') (make_backend_key m i) ≡ is_backend m i m' i'
make_backend_key-is_backend m i m' i' h k = elim (Bool-cases (is_backend m i m' i')) [
  | inl here ↦
      let (p, q) = and_parts (str_eq m' m) (str_eq i' i) here in
      let e : make_backend_key m' i' ≡ make_backend_key m i =
        ap (λ a. make_backend_key a i') ((eq_iff m' m).0 p)
        ∙ ap (make_backend_key m) ((eq_iff i' i).0 q) in
      (eq_iff (make_backend_key m' i') (make_backend_key m i)).1 e ∙ sym here
  | inr other ↦ elim (Bool-cases (str_eq (make_backend_key m' i') (make_backend_key m i))) [
    | inl same ↦
        let e = (eq_iff (make_backend_key m' i') (make_backend_key m i)).0 same in
        let (p, q) =
          behind-injective m' m k h (sym (key_as_behind m' i') ∙ e ∙ key_as_behind m i) in
        let p' = (eq_iff m' m).1 p in
        let q' = (eq_iff i' i).1 q in let r : is_backend m i m' i' ≡ true = rw p' (rw q' refl) in cc
    | inr differ ↦ differ ∙ sym other
  ]
]
