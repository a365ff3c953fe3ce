-- ===== src/Router/Auth/Rate.antt =====
-- The sliding window of `_check_rate`.
use mathlib.Core.List.{append-nil, append_assoc}
use llm_router_server_dashbo.Base.{
  map, ℕ, zero, suc, ◌+◌, ◌≤◌, ◌≡◌, refl, ◌∙◌, ap, String, Bool, true, false, ◌&&◌, Option, none,
  some, List, [], ◌∷◌, ◌++◌, length, length-append, filter, leb, ltb, arith, if◌then◌else◌,
  if-intro, or_default, str_eq, Bool-cases, inl, inr, eq_refl, eq_iff,
}
use llm_router_server_dashbo.Base.Dict.{lookup, lookup-insert}
use llm_router_server_dashbo.Router.Http.{Result, ok, raised}
use llm_router_server_dashbo.Router.Auth.{
  AuthState, rate_window, expire, admit, check_rate, too_many,
}

-- The time lies in the window that starts at `s`.
abbrev pub in_window : ℕ → ℕ → Bool
in_window s t = leb s t && ltb t (s + rate_window)

abbrev pub hits_in : ℕ → List ℕ → ℕ
hits_in s ts = length (filter (in_window s) ts)

hits_in-append : (s : ℕ) (xs ys : List ℕ) → hits_in s (xs ++ ys) ≡ hits_in s xs + hits_in s ys
hits_in-append s [] ys = omega arith
hits_in-append s (x ∷ xs) ys = ground (arith, hits_in-append s xs ys)

hits_in-le : (s : ℕ) (xs : List ℕ) → hits_in s xs ≤ length xs
hits_in-le s [] = omega arith
hits_in-le s (x ∷ xs) = ground (arith, hits_in-le s xs)

-- What expires by `now` lies in no window that ends after `now`.
hits_in-expire :
    (s now : ℕ) (dq : List ℕ) → suc now ≤ s + rate_window → hits_in s (expire now dq) ≡ hits_in s dq
unfolding expire
hits_in-expire s now [] h = refl
hits_in-expire s now (t ∷ dq) h = ground (arith, hits_in-expire s now dq h)

length-expire : (now : ℕ) (dq : List ℕ) → length (expire now dq) ≤ length dq
unfolding expire
length-expire now [] = omega arith
length-expire now (t ∷ dq) = ground (arith, length-expire now dq)

abbrev pub is_ok {ℓ} : {A : Type ℓ} → Result A → Bool
is_ok (ok a) = true
is_ok (raised e) = false

-- Times that do not decrease, from `now` on.
abbrev pub Ascending : ℕ → List ℕ → Type 0
Ascending now [] = Unit
Ascending now (t ∷ ts) = (now ≤ t) × Ascending t ts

-- No time from `now` on lies in a window that ends by `now`.
hits_in-later :
    (s now : ℕ) (ts : List ℕ) → s + rate_window ≤ now → Ascending now ts → hits_in s ts ≡ 0
hits_in-later s now [] h a = refl
hits_in-later s now (t ∷ ts) h a =
    let rest = hits_in-later s t ts (omega (arith, h, a.0)) a.1 in ground (arith, rest, a.0)

pub Ascending-weaken : (a b : ℕ) (ts : List ℕ) → a ≤ b → Ascending b ts → Ascending a ts
Ascending-weaken a b [] h asc = tt
Ascending-weaken a b (t ∷ ts) h asc = (omega (arith, asc.0), asc.1)

-- The requests of one key that pass, at the level of its timestamps.
unfoldable pub admitted : ℕ → List ℕ → List ℕ → List ℕ
admitted limit dq [] = []
admitted limit dq (now ∷ ts) =
    let (passes, kept) = admit limit now dq in
    let rest = admitted limit kept ts in if passes then now ∷ rest else rest

admitted-Ascending :
    (limit : ℕ) (dq : List ℕ) (now : ℕ) (ts : List ℕ)
    → Ascending now ts
    → Ascending now (admitted limit dq ts)
unfolding admitted
admitted-Ascending limit dq now [] asc = tt
admitted-Ascending limit dq now (t ∷ ts) asc =
    let rest = admitted-Ascending limit (admit limit t dq).1 t ts asc.1 in
    if-intro (Ascending now) (admit limit t dq).0 _ _ (λ _. (asc.0, rest))
      (λ _. Ascending-weaken now t _ asc.0 rest)

-- With the timestamps kept so far, no window holds more than the limit.
admitted-bound :
    (limit s : ℕ) (dq : List ℕ) (now : ℕ) (ts : List ℕ)
    → length dq ≤ limit
    → Ascending now ts
    → hits_in s (dq ++ admitted limit dq ts) ≤ limit
unfolding admitted admit
admitted-bound limit s dq now [] h asc = rw append-nil (omega (arith, h, hits_in-le s dq))
admitted-bound limit s dq now (t ∷ ts) h asc = elim (Bool-cases (leb (s + rate_window) t)) [
  | inl past ↦
      let none_later =
        hits_in-later s t (admitted limit dq (t ∷ ts)) (ground arith)
          (admitted-Ascending limit dq t (t ∷ ts) (omega arith, asc.1)) in
      rw (hits_in-append s dq (admitted limit dq (t ∷ ts)))
        (omega (arith, h, hits_in-le s dq, none_later))
  | inr live ↦ elim (Bool-cases (leb limit (length (expire t dq)))) [
    | inl full ↦
        let ih =
          admitted-bound limit s (expire t dq) t ts (omega (arith, h, length-expire t dq)) asc.1 in
        rw full (rw (same s t dq (ground arith) _) ih)
    | inr room ↦
        let ih =
          admitted-bound limit s (expire t dq ++ t ∷ []) t ts
            (ground (arith, length-append (expire t dq) (t ∷ []))) asc.1 in
        rw room (rw (same s t dq (ground arith) _) (simp append_assoc at ih))
  ]
]
  where
    same :
        (s now : ℕ) (dq : List ℕ)
        → suc now ≤ s + rate_window
        → (later : List ℕ) → hits_in s (dq ++ later) ≡ hits_in s (expire now dq ++ later)
    same s now dq h later =
        rw (hits_in-append s dq later, hits_in-append s (expire now dq) later)
          (omega (arith, hits_in-expire s now dq h))

-- Calls of the limiter: the key's name and the time. `limits` gives each key's limit.
unfoldable pub granted : (String → Option ℕ) → AuthState → List (String × ℕ) → String → List ℕ
granted limits st [] key = []
granted limits st ((name, now) ∷ calls) key =
    let (verdict, st') = check_rate now st name (limits name) in
    let rest = granted limits st' calls key in
    if str_eq name key && is_ok verdict then now ∷ rest else rest

abbrev pub times_of : String → List (String × ℕ) → List ℕ
times_of key [] = []
times_of key ((name, now) ∷ calls) =
    let rest = times_of key calls in if str_eq name key then now ∷ rest else rest

pub kept_of : AuthState → String → List ℕ
kept_of st key = or_default (lookup key st.hits) []

pub kept_of-empty : (st : AuthState) (key : String) → st.hits ≡ [] → kept_of st key ≡ []
unfolding kept_of lookup
kept_of-empty st key empty = rw empty refl

check_rate-other :
    (now : ℕ) (st : AuthState) (name key : String) (limit : Option ℕ)
    → str_eq name key ≡ false
    → kept_of (check_rate now st name limit).1 key ≡ kept_of st key
unfolding kept_of check_rate
check_rate-other now st name key none other = refl
check_rate-other now st name key (some zero) other = refl
check_rate-other now st name key (some (suc n)) other =
    let read =
      lookup-insert name key (admit (suc n) now (or_default (lookup name st.hits) [])).1 st.hits in
    ap (λ o. or_default o []) {y = lookup key st.hits} (read ∙ rw other refl)

check_rate-own :
    (now : ℕ) (st : AuthState) (key : String) (n : ℕ)
    → let (passes, kept) = admit (suc n) now (kept_of st key) in
      (is_ok (check_rate now st key (some (suc n))).0 ≡ passes)
      × (kept_of (check_rate now st key (some (suc n))).1 key ≡ kept)
unfolding kept_of check_rate too_many
check_rate-own now st key n =
    let (passes, kept) = admit (suc n) now (or_default (lookup key st.hits) []) in
    (
      fine passes,
      ap (λ o. or_default o []) {y = some kept}
          (lookup-insert key key kept st.hits ∙ rw (eq_refl key) refl),
    )
  where
    fine : (b : Bool) → is_ok (if b then ok tt else too_many key) ≡ b
    fine true = refl
    fine false = refl

-- One call of the key itself.
granted-own :
    (limits : String → Option ℕ) (key : String) (n now : ℕ)
    → limits key ≡ some (suc n)
    → (st : AuthState) (calls : List (String × ℕ))
    → granted limits (check_rate now st key (limits key)).1 calls key
      ≡ admitted (suc n) (kept_of (check_rate now st key (limits key)).1 key) (times_of key calls)
    → (let (verdict, st') = check_rate now st key (limits key) in
        let rest = granted limits st' calls key in if is_ok verdict then now ∷ rest else rest)
      ≡ admitted (suc n) (kept_of st key) (now ∷ times_of key calls)
unfolding granted admitted
granted-own limits key n now limit st calls ih =
    let own = check_rate-own now st key n in
    let later : granted limits (check_rate now st key (some (suc n))).1 calls key
        ≡ admitted (suc n) (admit (suc n) now (kept_of st key)).1 (times_of key calls) =
      rw (limit, own.1) at ih in
    rw (limit, own.0, later) refl

-- What one key is granted depends on its own calls alone.
pub granted-admitted :
    (limits : String → Option ℕ) (key : String) (n : ℕ)
    → limits key ≡ some (suc n)
    → (st : AuthState) (calls : List (String × ℕ))
    → granted limits st calls key ≡ admitted (suc n) (kept_of st key) (times_of key calls)
unfolding granted admitted
granted-admitted limits key n limit st [] = refl
granted-admitted limits key n limit st ((name, now) ∷ calls) =
    let ih = granted-admitted limits key n limit (check_rate now st name (limits name)).1 calls in
    elim (Bool-cases (str_eq name key)) [
      | inr other ↦ rw other (ih ∙ rw (check_rate-other now st name key (limits name) other) refl)
      | inl same ↦
          let e : name ≡ key = (eq_iff name key).0 same in
          rw same (rw e (granted-own limits key n now limit st calls (rw e at ih)))
    ]

pub times_of-Ascending :
    (key : String) (now : ℕ) (calls : List (String × ℕ))
    → Ascending now (map (λ c. c.1) calls)
    → Ascending now (times_of key calls)
times_of-Ascending key now [] asc = tt
times_of-Ascending key now ((name, t) ∷ calls) asc =
    let rest = times_of-Ascending key t calls asc.1 in
    if-intro (Ascending now) (str_eq name key) _ _ (λ _. (asc.0, rest))
      (λ _. Ascending-weaken now t _ asc.0 rest)

-- A key with a limit passes at most that often in any 60 seconds, whatever calls other keys make: at
-- non-decreasing times, from an empty limiter.
pub granted-bound :
    (limits : String → Option ℕ) (key : String) (n : ℕ) (st : AuthState) (calls : List (String × ℕ))
    (start s : ℕ)
    → limits key ≡ some (suc n)
    → st.hits ≡ []
    → Ascending start (map (λ c. c.1) calls)
    → hits_in s (granted limits st calls key) ≤ suc n
granted-bound limits key n st calls start s limit empty asc =
    let alone = granted-admitted limits key n limit st calls in
    let bound =
      admitted-bound (suc n) s [] start (times_of key calls) (omega arith)
        (times_of-Ascending key start calls asc) in
    rw (alone, kept_of-empty st key empty) bound
