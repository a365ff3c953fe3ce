-- ===== src/Fleet/Leader.antt =====
-- The leader lease of packages/llmops-store/llmops_store.py, and the elector of
-- apps/backend/app/core/leader.py that holds it.
pub mod Exclusion
use llm_router_server_dashbo.Base.{
  ℕ, ◌+◌, String, Bool, true, false, not, ◌&&◌, ◌||◌, Option, none, some, List, [], ◌∷◌, ◌++◌, ltb,
  str_eq, if◌then◌else◌,
}

-- The row of one lease.
pub record Lease : Type 0 where
  pub holder : String
  pub expires_at : ℕ

-- INSERT ... ON CONFLICT DO UPDATE ... WHERE expires_at < now OR holder = us
unfoldable pub upsert : ℕ → String → ℕ → Option Lease → Lease
upsert now holder ttl none = record { holder = holder; expires_at = now + ttl }
upsert now holder ttl (some row) =
    if ltb row.expires_at now || str_eq row.holder holder
    then record { holder = holder; expires_at = now + ttl }
    else row

unfoldable pub try_acquire_leader : ℕ → String → ℕ → Option Lease → Bool × Option Lease
unfolding upsert
try_acquire_leader now holder ttl lease =
    let row = upsert now holder ttl lease in
    (str_eq row.holder holder && ltb now row.expires_at, some row)

unfoldable pub release_leader : String → Option Lease → Option Lease
release_leader holder none = none
release_leader holder (some row) = if str_eq row.holder holder then none else some row

pub data Callback : Type 0 where
  on_acquire on_release : Callback

-- `_step_down`: what it calls, of a leader or not.
abbrev pub step_down : Bool → List Callback
step_down true = on_release ∷ []
step_down false = []

-- One round of the loop: what it calls, given whether the lease was got; the flag is then what it got.
unfoldable pub on_check : Bool → Bool → List Callback
on_check got is_leader =
    if got && not is_leader
    then on_acquire ∷ []
    else if not got && is_leader
    then step_down is_leader
    else []

-- The loop until it is stopped, and the `finally` block.
unfoldable pub run : Bool → List Bool → List Callback
unfolding on_check
run is_leader [] = step_down is_leader
run is_leader (got ∷ gots) = on_check got is_leader ++ run got gots
