-- ===== src/Base/Lists.antt =====
-- Lists measured and indexed by native numbers, with Boolean tests.
use Prim.Native.Nat.{ℕ, zero, suc, ◌+◌, ◌≤◌, ◌<◌}
use mathlib.Core.Path.{◌≡◌, refl, sym, ap, fun_ext, subst}
use mathlib.Core.Bool.{Bool, true, false, ◌||◌}
use mathlib.Core.Option.{Option, none, some}
use mathlib.Core.List.{List, [], ◌∷◌, ◌++◌, Memᴰ}
use mathlib.Core.List.Memᴰ
use mathlib.Core.Logic.{◌⊎◌, inl, inr}
use native.Mathlib.Omega.{arith}
use llm_router_server_dashbo.Base.Tests.{if◌then◌else◌, Bool-cases}

module _ {ℓ} {A : Type ℓ} where
  abbrev pub length : List A → ℕ
  length [] = 0
  length (x ∷ xs) = suc (length xs)

  abbrev pub get_elem? : List A → ℕ → Option A
  get_elem? [] i = none
  get_elem? (x ∷ xs) zero = some x
  get_elem? (x ∷ xs) (suc i) = get_elem? xs i

  abbrev pub get_or : List A → ℕ → A → A
  get_or [] i d = d
  get_or (x ∷ xs) zero d = x
  get_or (x ∷ xs) (suc i) d = get_or xs i d

  -- [x for x in xs if p(x)]
  abbrev pub filter : (A → Bool) → List A → List A
  filter p [] = []
  filter p (x ∷ xs) = let rest = filter p xs in if p x then x ∷ rest else rest

  -- any(p(x) for x in xs)
  abbrev pub any : (A → Bool) → List A → Bool
  any p [] = false
  any p (x ∷ xs) = p x || any p xs

  abbrev pub last_or : A → List A → A
  last_or x [] = x
  last_or x (y ∷ ys) = last_or y ys

  -- A predicate of every element.
  abbrev pub All {κ} : (A → Type κ) → List A → Type κ
  All P [] = Unit
  All P (x ∷ xs) = P x × All P xs

  pub length-append : (xs ys : List A) → length (xs ++ ys) ≡ length xs + length ys
  length-append [] ys = omega arith
  length-append (x ∷ xs) ys = omega (arith, length-append xs ys)

  pub length-filter-le : (p : A → Bool) (xs : List A) → length (filter p xs) ≤ length xs
  length-filter-le p [] = omega arith
  length-filter-le p (x ∷ xs) = ground (arith, length-filter-le p xs)

module _ {ℓ} {A : Type ℓ} where
  -- An element of the filtered list is one of the list that passes the test.
  pub mem-filter :
      (p : A → Bool) (xs : List A) {a : A} → Memᴰ a (filter p xs) → Memᴰ a xs × (p a ≡ true)
  mem-filter p [] m = absurd (Memᴰ.not-nil m)
  mem-filter p (x ∷ xs) {a} m = elim (Bool-cases (p x)) [
    | inl e ↦
        let kept : Memᴰ a (x ∷ filter p xs) = rw e at m in
        elim (Memᴰ.cases_cons kept) [
          | inl q ↦ (Memᴰ.head q, rw q e)
          | inr t ↦ let (s, h) = mem-filter p xs t in (Memᴰ.tail s, h)
        ]
    | inr e ↦
        let dropped : Memᴰ a (filter p xs) = rw e at m in
        let (s, h) = mem-filter p xs dropped in (Memᴰ.tail s, h)
  ]

  pub mem-filter_intro :
      (p : A → Bool) {a : A} {xs : List A} → Memᴰ a xs → p a ≡ true → Memᴰ a (filter p xs)
  mem-filter_intro p (Memᴰ.head {x = x} e) h =
      let hx : p x ≡ true = rw (← e) h in rw hx (Memᴰ.head e)
  mem-filter_intro p (Memᴰ.tail {x = x} m) h = elim (Bool-cases (p x)) [
    | inl e ↦ rw e (Memᴰ.tail (mem-filter_intro p m h))
    | inr e ↦ rw e (mem-filter_intro p m h)
  ]

  pub filter-nil_no_mem :
      (p : A → Bool) {xs : List A} {a : A} → filter p xs ≡ [] → Memᴰ a xs → p a ≡ false
  filter-nil_no_mem p {xs} {a} e m = elim (Bool-cases (p a)) [
    | inl h ↦
        let found : Memᴰ a (filter p xs) = mem-filter_intro p m h in
        let none_left : Memᴰ a [] = rw e at found in absurd (Memᴰ.not-nil none_left)
    | inr h ↦ h
  ]

  pub any-of_mem : (p : A → Bool) {a : A} {xs : List A} → Memᴰ a xs → p a ≡ true → any p xs ≡ true
  any-of_mem p (Memᴰ.head {x = x} e) h = let hx : p x ≡ true = rw (← e) h in rw hx
  any-of_mem p (Memᴰ.tail m) h = ground (arith, any-of_mem p m h)

  pub mem-of_any :
      (p : A → Bool) (xs : List A) → any p xs ≡ true → (a : A) × Memᴰ a xs × (p a ≡ true)
  mem-of_any p [] h = cc
  mem-of_any p (x ∷ xs) h = elim (Bool-cases (p x)) [
    | inl e ↦ (x, Memᴰ.head refl, e)
    | inr e ↦ let (a, m, q) = mem-of_any p xs (rw e at h) in (a, Memᴰ.tail m, q)
  ]

  pub mem-get_or : (xs : List A) (i : ℕ) (d : A) → i < length xs → Memᴰ (get_or xs i d) xs
  mem-get_or [] i d h = absurd (omega arith)
  mem-get_or (x ∷ xs) zero d h = Memᴰ.head refl
  mem-get_or (x ∷ xs) (suc i) d h = Memᴰ.tail (mem-get_or xs i d (omega arith))

  pub mem-get_or_default : (xs : List A) (i : ℕ) {d : A} → Memᴰ d xs → Memᴰ (get_or xs i d) xs
  mem-get_or_default xs i {d} m = elim (in_range xs i) [
    | inl h ↦ mem-get_or xs i d h
    | inr e ↦ rw e m
  ]
    where
      in_range : (ys : List A) (k : ℕ) → (k < length ys) ⊎ (get_or ys k d ≡ d)
      in_range [] k = inr refl
      in_range (y ∷ ys) zero = inl (omega arith)
      in_range (y ∷ ys) (suc k) = elim (in_range ys k) [ inl h ↦ inl (omega arith) | inr e ↦ inr e ]

  pub All-of_mem {κ} : (P : A → Type κ) {a : A} {xs : List A} → Memᴰ a xs → All P xs → P a
  All-of_mem P (Memᴰ.head e) h = subst P (sym e) h.0
  All-of_mem P (Memᴰ.tail m) h = All-of_mem P m h.1

  pub All-map {κ μ} :
      {P : A → Type κ} {Q : A → Type μ} (f : (a : A) → P a → Q a) (xs : List A)
      → All P xs
      → All Q xs
  All-map f [] h = tt
  All-map f (x ∷ xs) h = (f x h.0, All-map f xs h.1)

  pub All-filter {κ} :
      (P : A → Type κ) (p : A → Bool) (xs : List A) → All P xs → All P (filter p xs)
  All-filter P p [] h = tt
  All-filter P p (x ∷ xs) h = elim (Bool-cases (p x)) [
    | inl e ↦ rw e (h.0, All-filter P p xs h.1)
    | inr e ↦ rw e (All-filter P p xs h.1)
  ]

  pub All-append {κ} : (P : A → Type κ) (xs ys : List A) → All P xs → All P ys → All P (xs ++ ys)
  All-append P [] ys h k = k
  All-append P (x ∷ xs) ys h k = (h.0, All-append P xs ys h.1 k)

  pub filter-ext :
      (p q : A → Bool) → ((a : A) → p a ≡ q a) → (xs : List A) → filter p xs ≡ filter q xs
  filter-ext p q h xs = ap (λ r. filter r xs) (fun_ext h)
