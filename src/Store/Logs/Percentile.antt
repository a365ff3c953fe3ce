-- ===== src/Store/Logs/Percentile.antt =====
-- The percentiles of the latencies.
use llm_router_server_dashbo.Base.{
  ℕ, zero, suc, ◌-◌, ◌*◌, ◌≤◌, ◌<◌, min, ◌≡◌, refl, sym, ap, ◌∙◌, subst, none, some, List, [], ◌∷◌,
  length, get_or, mem-get_or, leb, leb→le, arith, Bool-cases, inl, inr, All, Memᴰ,
}
use mathlib.Core.List.Memᴰ
use llm_router_server_dashbo.Store.Logs.{insert_value, sorted, round_half_even, percentile}

abbrev IsAscending : List ℕ → Type 0
IsAscending [] = Unit
IsAscending (v ∷ values) = All (λ w. v ≤ w) values × IsAscending values

insert_value-All :
    (u v : ℕ) (values : List ℕ)
    → u ≤ v
    → All (λ w. u ≤ w) values
    → All (λ w. u ≤ w) (insert_value v values)
unfolding insert_value
insert_value-All u v [] le h = (le, tt)
insert_value-All u v (w ∷ values) le h = elim (Bool-cases (leb v w)) [
  | inl before ↦ rw before (le, h)
  | inr behind ↦ rw behind (h.0, insert_value-All u v values le h.1)
]

All-le_trans :
    (u v : ℕ) (values : List ℕ) → u ≤ v → All (λ w. v ≤ w) values → All (λ w. u ≤ w) values
All-le_trans u v [] le h = tt
All-le_trans u v (w ∷ values) le h = (omega (arith, le, h.0), All-le_trans u v values le h.1)

insert_value-IsAscending :
    (v : ℕ) (values : List ℕ) → IsAscending values → IsAscending (insert_value v values)
unfolding insert_value
insert_value-IsAscending v [] h = (tt, tt)
insert_value-IsAscending v (w ∷ values) (above, h) = elim (Bool-cases (leb v w)) [
  | inl before ↦
      let le = leb→le v w before in rw before ((le, All-le_trans v w values le above), (above, h))
  | inr behind ↦ rw behind (
    insert_value-All w v values (ground (arith, behind)) above,
    insert_value-IsAscending v values h,
  )
]

sorted-IsAscending : (values : List ℕ) → IsAscending (sorted values)
unfolding sorted
sorted-IsAscending [] = tt
sorted-IsAscending (v ∷ values) =
    insert_value-IsAscending v (sorted values) (sorted-IsAscending values)

mem-insert_value :
    {a : ℕ} (v : ℕ) (values : List ℕ) → Memᴰ a (insert_value v values) → Memᴰ a (v ∷ values)
unfolding insert_value
mem-insert_value v [] m = m
mem-insert_value {a} v (w ∷ values) m = elim (Bool-cases (leb v w)) [
  | inl before ↦ rw before at m
  | inr behind ↦
      let there : Memᴰ a (w ∷ insert_value v values) = rw behind at m in
      elim (Memᴰ.cases_cons there) [
        | inl here ↦ Memᴰ.tail (Memᴰ.head here)
        | inr later ↦ elim (Memᴰ.cases_cons (mem-insert_value v values later)) [
          | inl new ↦ Memᴰ.head new
          | inr old ↦ Memᴰ.tail (Memᴰ.tail old)
        ]
      ]
]

mem-sorted : {a : ℕ} (values : List ℕ) → Memᴰ a (sorted values) → Memᴰ a values
unfolding sorted
mem-sorted [] m = m
mem-sorted (v ∷ values) m = elim (Memᴰ.cases_cons (mem-insert_value v (sorted values) m)) [
  | inl here ↦ Memᴰ.head here
  | inr later ↦ Memᴰ.tail (mem-sorted values later)
]

get_or-le-All :
    (u : ℕ) (values : List ℕ) (j d : ℕ)
    → j < length values
    → All (λ w. u ≤ w) values
    → u ≤ get_or values j d
get_or-le-All u [] j d inside h = absurd (omega arith)
get_or-le-All u (w ∷ values) zero d inside h = h.0
get_or-le-All u (w ∷ values) (suc j) d inside h = get_or-le-All u values j d (omega arith) h.1

get_or-le :
    (values : List ℕ) (i j d : ℕ)
    → IsAscending values
    → i ≤ j
    → j < length values
    → get_or values i d ≤ get_or values j d
get_or-le [] i j d h le inside = absurd (omega arith)
get_or-le (v ∷ values) zero zero d h le inside = omega arith
get_or-le (v ∷ values) zero (suc j) d (above, h) le inside =
    get_or-le-All v values j d (omega arith) above
get_or-le (v ∷ values) (suc i) zero d h le inside = absurd (omega arith)
get_or-le (v ∷ values) (suc i) (suc j) d (above, h) le inside =
    get_or-le values i j d h (omega arith) (omega arith)

round_half_even-le : (n m : ℕ) → n ≤ m → round_half_even n 100 ≤ round_half_even m 100
round_half_even-le n m le = ground arith

length-insert_value :
    (v : ℕ) (values : List ℕ) → length (insert_value v values) ≡ suc (length values)
unfolding insert_value
length-insert_value v [] = refl
length-insert_value v (w ∷ values) = elim (Bool-cases (leb v w)) [
  | inl before ↦ rw before refl
  | inr behind ↦ rw behind (ap (λ n. suc n) (length-insert_value v values))
]

abbrev ordered : ℕ → List ℕ → List ℕ
ordered v values = sorted (v ∷ values)

abbrev rank : ℕ → List ℕ → ℕ → ℕ
rank v values pct =
    let top = length (ordered v values) - 1 in min top (round_half_even (pct * top) 100)

rank-lt : (v : ℕ) (values : List ℕ) (pct : ℕ) → rank v values pct < length (ordered v values)
unfolding sorted
rank-lt v values pct =
    let size = length-insert_value v (sorted values) in
    min-lt (length (ordered v values)) (round_half_even (pct * (length (ordered v values) - 1)) 100)
      (omega (arith, size))
  where
    min-lt : (n k : ℕ) → 0 < n → min (n - 1) k < n
    min-lt n k h = omega arith

rank-le : (v : ℕ) (values : List ℕ) (p q : ℕ) → p ≤ q → rank v values p ≤ rank v values q
rank-le v values p q le =
    let top = length (ordered v values) - 1 in
    min-le top (round_half_even (p * top) 100) (round_half_even (q * top) 100)
      (round_half_even-le (p * top) (q * top) (times-le top))
  where
    min-le : (n j k : ℕ) → j ≤ k → min n j ≤ min n k
    min-le n j k h = omega arith

    times-le : (n : ℕ) → p * n ≤ q * n
    times-le zero = omega arith
    times-le (suc n) = omega (arith, times-le n, le)

percentile-rank :
    (v : ℕ) (values : List ℕ) (pct : ℕ)
    → percentile (v ∷ values) pct ≡ some (get_or (ordered v values) (rank v values pct) v)
unfolding percentile
percentile-rank v values pct = refl

some-injective : {a b : ℕ} → some a ≡ some b → a ≡ b
some-injective {a} e = ap (λ o. elim o [ none ↦ a | some x ↦ x ]) e

percentile-mem :
    (v : ℕ) (values : List ℕ) (pct a : ℕ)
    → percentile (v ∷ values) pct ≡ some a
    → Memᴰ a (v ∷ values)
percentile-mem v values pct a e =
    let here = mem-get_or (ordered v values) (rank v values pct) v (rank-lt v values pct) in
    subst (λ x. Memᴰ x (v ∷ values)) (some-injective (sym (percentile-rank v values pct) ∙ e))
      (mem-sorted (v ∷ values) here)

-- Every percentile of the latencies is one of them, and a higher one is at least as large, so the median of the
-- report is never above its 95th percentile.
pub percentile-le :
    (values : List ℕ) (p q a b : ℕ)
    → p ≤ q
    → percentile values p ≡ some a
    → percentile values q ≡ some b
    → Memᴰ a values × Memᴰ b values × (a ≤ b)
unfolding percentile
percentile-le [] p q a b le pa qb = cc
percentile-le (v ∷ values) p q a b le pa qb = (
  percentile-mem v values p a pa,
  percentile-mem v values q b qb,
  subst (λ x. x ≤ b) (some-injective (sym (percentile-rank v values p) ∙ pa))
      (subst (λ y. get_or (ordered v values) (rank v values p) v ≤ y)
        (some-injective (sym (percentile-rank v values q) ∙ qb))
        (get_or-le (ordered v values) (rank v values p) (rank v values q) v
          (sorted-IsAscending (v ∷ values)) (rank-le v values p q le) (rank-lt v values q))),
)
