-- ===== src/Fleet/Leader/Exclusion.antt =====
-- One leader at a time.
use llm_router_server_dashbo.Base.{
  ℕ, ◌+◌, ◌≤◌, ◌<◌, ◌≡◌, sym, String, Bool, true, false, ◌||◌, ◌⊎◌, inl, inr, Option, some, List,
  [], ◌∷◌, ltb, str_eq, eq_iff, eq_refl, if◌then◌else◌, Bool-cases, arith,
}
use llm_router_server_dashbo.Fleet.Leader.{
  Lease, upsert, try_acquire_leader, Callback, on_acquire, on_release, on_check, run,
}

-- The attempts that got the lease, out of attempts of any holders; nobody releases it.
unfoldable pub wins : ℕ → Option Lease → List (String × ℕ) → List (String × ℕ)
wins ttl lease [] = []
wins ttl lease ((holder, now) ∷ rest) =
    let (got, lease') = try_acquire_leader now holder ttl lease in
    let later = wins ttl lease' rest in if got then (holder, now) ∷ later else later

-- Each win is by the holder before it, or later than the holder's time.
abbrev pub Exclusive : ℕ → String → ℕ → List (String × ℕ) → Type 0
Exclusive ttl holder expires [] = Unit
Exclusive ttl holder expires ((next, now) ∷ rest) =
    ((next ≡ holder) ⊎ (expires < now)) × Exclusive ttl next (now + ttl) rest

-- A lease that ran out or is the caller's own goes to the caller.
try_acquire_leader-of_free :
    (now : ℕ) (holder : String) (ttl : ℕ) (row : Lease)
    → 1 ≤ ttl
    → (ltb row.expires_at now || str_eq row.holder holder) ≡ true
    → try_acquire_leader now holder ttl (some row)
      ≡ (true, some (record { holder = holder; expires_at = now + ttl }))
unfolding try_acquire_leader upsert
try_acquire_leader-of_free now holder ttl row h free = ground (arith, free, eq_refl holder)

-- A lease that another one holds stays as it is.
try_acquire_leader-of_held :
    (now : ℕ) (holder : String) (ttl : ℕ) (row : Lease)
    → (ltb row.expires_at now || str_eq row.holder holder) ≡ false
    → try_acquire_leader now holder ttl (some row) ≡ (false, some row)
unfolding try_acquire_leader upsert
try_acquire_leader-of_held now holder ttl row held = ground (arith, held)

-- Why a lease is free.
free-cases :
    (now : ℕ) (holder : String) (row : Lease)
    → (ltb row.expires_at now || str_eq row.holder holder) ≡ true
    → (holder ≡ row.holder) ⊎ (row.expires_at < now)
free-cases now holder row free = elim (Bool-cases (str_eq row.holder holder)) [
  | inl same ↦ inl (sym ((eq_iff row.holder holder).0 same))
  | inr other ↦ inr (ground (arith, free, other))
]

-- However the attempts of the replicas interleave, with a positive lifetime and no release between them,
-- another holder gets the lease only once the last win's lifetime has passed, so the lifetimes of two
-- leaders never overlap.
pub wins-Exclusive :
    (ttl : ℕ) (row : Lease) (tries : List (String × ℕ))
    → 1 ≤ ttl
    → Exclusive ttl row.holder row.expires_at (wins ttl (some row) tries)
unfolding wins
wins-Exclusive ttl row [] h = tt
wins-Exclusive ttl row ((holder, now) ∷ rest) h =
    elim (Bool-cases (ltb row.expires_at now || str_eq row.holder holder)) [
      | inl free ↦ rw (try_acquire_leader-of_free now holder ttl row h free) (
        free-cases now holder row free,
        wins-Exclusive ttl (record { holder = holder; expires_at = now + ttl }) rest h,
      )
      | inr held ↦
          rw (try_acquire_leader-of_held now holder ttl row held) (wins-Exclusive ttl row rest h)
    ]

-- Calls that take turns: a release is next if `leads`, and none is left at the end.
abbrev pub Alternates : Bool → List Callback → Type 0
Alternates true [] = ⊥
Alternates false [] = Unit
Alternates false (on_acquire ∷ rest) = Alternates true rest
Alternates true (on_release ∷ rest) = Alternates false rest
Alternates true (on_acquire ∷ rest) = ⊥
Alternates false (on_release ∷ rest) = ⊥

-- Whatever the lease answers, the loops of the leader are started and stopped in turns, and stopped in
-- the end.
pub run-Alternates :
    (is_leader : Bool) (gots : List Bool) → Alternates is_leader (run is_leader gots)
unfolding run on_check
run-Alternates true [] = tt
run-Alternates false [] = tt
run-Alternates true (true ∷ gots) = run-Alternates true gots
run-Alternates true (false ∷ gots) = run-Alternates false gots
run-Alternates false (true ∷ gots) = run-Alternates true gots
run-Alternates false (false ∷ gots) = run-Alternates false gots
