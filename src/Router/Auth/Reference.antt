-- ===== src/Router/Auth/Reference.antt =====
-- `_check_rate` against a limiter that keeps the whole history.
use mathlib.Core.List.{append_assoc}
use llm_router_server_dashbo.Base.{
  ℕ, suc, ◌+◌, ◌≤◌, ◌<◌, ◌≡◌, refl, sym, ◌∙◌, ap, String, true, false, Option, some, List, [], ◌∷◌,
  ◌++◌, length, filter, leb, ltb, arith, if◌then◌else◌, Bool-cases, inl, inr, map,
}
use llm_router_server_dashbo.Router.Auth.{AuthState, rate_window, expire, admit}
use llm_router_server_dashbo.Router.Auth.Rate.{
  granted, times_of, Ascending, Ascending-weaken, admitted, granted-admitted, times_of-Ascending,
  kept_of-empty,
}

-- The passes that are less than 60 seconds old.
abbrev pub recent : ℕ → List ℕ → ℕ
recent now past = length (filter (λ t. ltb now (t + rate_window)) past)

-- The limiter to compare with: a request passes where fewer than `limit` earlier passes are recent.
abbrev pub reference : ℕ → List ℕ → List ℕ → List ℕ
reference limit past [] = []
reference limit past (now ∷ ts) =
    let passed = now ∷ reference limit (now ∷ past) ts in
    let refused = reference limit past ts in if leb limit (recent now past) then refused else passed

recent-append : (now : ℕ) (xs ys : List ℕ) → recent now (xs ++ ys) ≡ recent now xs + recent now ys
recent-append now [] ys = omega arith
recent-append now (x ∷ xs) ys = ground (arith, recent-append now xs ys)

recent-expire :
    (now later : ℕ) (dq : List ℕ) → now ≤ later → recent later (expire now dq) ≡ recent later dq
unfolding expire
recent-expire now later [] h = refl
recent-expire now later (t ∷ dq) h = ground (arith, recent-expire now later dq h)

recent-all :
    (now a : ℕ) (dq ts : List ℕ)
    → now < a + rate_window
    → Ascending a (dq ++ ts)
    → recent now dq ≡ length dq
recent-all now a [] ts h asc = refl
recent-all now a (t ∷ dq) ts h asc =
    let rest = recent-all now t dq ts (omega (arith, h, asc.0)) asc.1 in
    let first : ltb now (t + rate_window) ≡ true = ground (arith, h, asc.0) in
    rw first (ap suc rest)

length-expire-recent :
    (now a : ℕ) (dq ts : List ℕ) → Ascending a (dq ++ ts) → length (expire now dq) ≡ recent now dq
unfolding expire
length-expire-recent now a [] ts asc = refl
length-expire-recent now a (t ∷ dq) ts asc = elim (Bool-cases (leb (t + rate_window) now)) [
  | inl old ↦
      let young : ltb now (t + rate_window) ≡ false = ground arith in
      rw (old, young) (length-expire-recent now t dq ts asc.1)
  | inr alive ↦
      let young : ltb now (t + rate_window) ≡ true = ground arith in
      rw (alive, young) (ap suc (sym (recent-all now t dq ts (ground arith) asc.1)))
]

expire-Ascending :
    (now a : ℕ) (dq ts : List ℕ) → Ascending a (dq ++ ts) → Ascending a (expire now dq ++ ts)
unfolding expire
expire-Ascending now a [] ts asc = asc
expire-Ascending now a (t ∷ dq) ts asc = elim (Bool-cases (leb (t + rate_window) now)) [
  | inl old ↦ rw old (Ascending-weaken a t _ asc.0 (expire-Ascending now t dq ts asc.1))
  | inr alive ↦ rw alive asc
]

drop-Ascending : (a t : ℕ) (dq ts : List ℕ) → Ascending a (dq ++ t ∷ ts) → Ascending a (dq ++ ts)
drop-Ascending a t [] ts asc = Ascending-weaken a t ts asc.0 asc.1
drop-Ascending a t (x ∷ dq) ts asc = (asc.0, drop-Ascending x t dq ts asc.1)

-- The kept timestamps count, from now on, what the whole history counts.
admitted-reference :
    (limit a : ℕ) (dq past ts : List ℕ)
    → Ascending 0 (dq ++ ts)
    → Ascending a ts
    → ((now : ℕ) → a ≤ now → recent now dq ≡ recent now past)
    → admitted limit dq ts ≡ reference limit past ts
unfolding admitted admit
admitted-reference limit a dq past [] order later same = refl
admitted-reference limit a dq past (t ∷ ts) order later same =
    let kept = expire t dq in
    let count : length kept ≡ recent t past =
      length-expire-recent t 0 dq (t ∷ ts) order ∙ same t later.0 in
    let order' = expire-Ascending t 0 dq (t ∷ ts) order in
    let same' : (now : ℕ) → t ≤ now → recent now kept ≡ recent now past =
      λ now h. recent-expire t now dq h ∙ same now (omega (arith, h, later.0)) in
    elim (Bool-cases (leb limit (recent t past))) [
      | inl full ↦
          rw (count, full)
            (admitted-reference limit t kept past ts (drop-Ascending 0 t kept ts order') later.1
              same')
      | inr room ↦
          rw (count, room)
            (ap (λ l. t ∷ l)
              (admitted-reference limit t (kept ++ t ∷ []) (t ∷ past) ts (rw append_assoc order')
                later.1 (λ now h. recent-append now kept (t ∷ []) ∙ ground (arith, same' now h))))
    ]

-- A key with a limit passes exactly where fewer than that many of its earlier passes are less than 60
-- seconds old, whatever calls other keys make: at non-decreasing times, from an empty limiter.
pub granted-reference :
    (limits : String → Option ℕ) (key : String) (n : ℕ) (st : AuthState) (calls : List (String × ℕ))
    (start : ℕ)
    → limits key ≡ some (suc n)
    → st.hits ≡ []
    → Ascending start (map (λ c. c.1) calls)
    → granted limits st calls key ≡ reference (suc n) [] (times_of key calls)
granted-reference limits key n st calls start limit empty asc =
    let times = times_of-Ascending key start calls asc in
    granted-admitted limits key n limit st calls
    ∙ (rw (kept_of-empty st key empty) (
        admitted-reference (suc n) start [] [] (times_of key calls)
          (Ascending-weaken 0 start _ (omega arith) times) times (λ _ _. refl)))
