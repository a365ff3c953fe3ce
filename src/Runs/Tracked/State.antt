-- ===== src/Runs/Tracked/State.antt =====
-- What the rows of the evaluations say of what the manager does.
use llm_router_server_dashbo.Base.{ℕ, ◌≤◌, ◌≡◌, true, List, arith, ◌⊎◌}
use llm_router_server_dashbo.Runs.Table.{queued, running, RunRow}
use llm_router_server_dashbo.Runs.Evals.{Evals, has}
use llm_router_server_dashbo.Runs.Places.{count, count_keys}
use llm_router_server_dashbo.Runs.Status.{Says, Keeps}

-- The row of a process says that it runs, or the update that says so is awaited and it still waits.
abbrev pub IsStarted : List ℕ → List RunRow → ℕ → Type 0
IsStarted spawning rows k = Says running rows k ⊎ ((has k spawning ≡ true) × Says queued rows k)

pub record IsTracked (st : Evals) : Type 0 where
  pub begun : (k : ℕ) → 1 ≤ count_keys k st.inserted → Says queued st.table.rows k
  pub waits : (k : ℕ) → 1 ≤ count k st.waiting → Says queued st.table.rows k
  pub runs : (k : ℕ) → 1 ≤ count k st.procs → IsStarted st.spawning st.table.rows k
  pub spawned : (k : ℕ) → has k st.spawning ≡ true → 1 ≤ count k st.procs

-- What an event does not undo.
pub record Passes (st next : Evals) : Type 0 where
  pub tracked : IsTracked next
  pub grows : st.table.next_id ≤ next.table.next_id
  pub keeps : Keeps st.table.next_id st.table.rows next.table.rows

pub stays : (st : Evals) → IsTracked st → Passes st st
stays st h = record { tracked = h; grows = omega arith; keeps = λ k t lt over there. there }
