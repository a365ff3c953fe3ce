-- ===== src/Router/State/Marks.antt =====
-- Failure cooldowns and drain marks of backend_runtime_state.py over time.
use Prim.Native.String.{◌++◌}
use text.Mathlib.TextLemmas.{append_assoc}
use llm_router_server_dashbo.Base.{
  ℕ, ◌+◌, ◌≤◌, String, ◌≡◌, false, none, arith, ltb, if◌then◌else◌, str_eq, eq_iff,
}
use llm_router_server_dashbo.Base.Dict.{lookup-insert, lookup-remove}
use llm_router_server_dashbo.Router.State.{
  App, make_backend_key, is_backend_in_cooldown, mark_backend_failure, mark_backend_success,
  mark_draining, clear_draining, is_draining,
}

-- A failure recorded at `t` keeps the backend in cooldown exactly before `t + cooldown`, and leaves
-- every backend with another key as it was.
pub cooldown-mark_backend_failure :
    (t now cooldown : ℕ) (app : App) (m i error m' i' : String)
    → is_backend_in_cooldown now (mark_backend_failure t app m i error cooldown) m' i' ≡ (
        if str_eq (make_backend_key m i) (make_backend_key m' i')
        then ltb now (t + cooldown)
        else is_backend_in_cooldown now app m' i')
unfolding is_backend_in_cooldown mark_backend_failure
cooldown-mark_backend_failure t now cooldown app m i error m' i' = simp lookup-insert (ground arith)

-- A success ends the cooldown of its backend at once, and touches no backend with another key.
pub cooldown-mark_backend_success :
    (now : ℕ) (app : App) (m i m' i' : String)
    → is_backend_in_cooldown now (mark_backend_success app m i) m' i' ≡ (
        if str_eq (make_backend_key m i) (make_backend_key m' i')
        then false
        else is_backend_in_cooldown now app m' i')
unfolding is_backend_in_cooldown mark_backend_success
cooldown-mark_backend_success now app m i m' i' = ground (
  arith,
  eq_iff (make_backend_key m i) (make_backend_key m' i'),
  lookup-insert (make_backend_key m i) (make_backend_key m' i')
      (record { fail_count = 0; cooldown_until = 0; last_error = none }) app.backend_health,
)

-- A mark set at `t` drains the backend exactly before `t + ttl`, and no backend with another key.
pub is_draining-mark_draining :
    (t now ttl : ℕ) (app : App) (m i m' i' : String)
    → (is_draining now (mark_draining t app m i ttl) m' i').0 ≡ (
        if str_eq (make_backend_key m i) (make_backend_key m' i')
        then ltb now (t + ttl)
        else (is_draining now app m' i').0)
unfolding is_draining mark_draining
is_draining-mark_draining t now ttl app m i m' i' = ground (
  arith,
  eq_iff (make_backend_key m i) (make_backend_key m' i'),
  lookup-insert (make_backend_key m i) (make_backend_key m' i') (t + ttl) app.draining,
)

-- Clearing a mark ends the drain of its backend.
pub is_draining-clear_draining :
    (now : ℕ) (app : App) (m i m' i' : String)
    → (is_draining now (clear_draining app m i) m' i').0 ≡ (
        if str_eq (make_backend_key m i) (make_backend_key m' i')
        then false
        else (is_draining now app m' i').0)
unfolding is_draining clear_draining
is_draining-clear_draining now app m i m' i' = ground (
  arith,
  eq_iff (make_backend_key m i) (make_backend_key m' i'),
  lookup-remove (make_backend_key m i) (make_backend_key m' i') app.draining,
)

-- Reading a mark drops it only when it has expired: what any later reading of any backend returns
-- is what it would have returned without this one.
pub is_draining_stable :
    (now later : ℕ) (app : App) (m i m' i' : String)
    → now ≤ later
    → (is_draining later (is_draining now app m i).1 m' i').0 ≡ (is_draining later app m' i').0
unfolding is_draining
is_draining_stable now later app m i m' i' h = ground (
  arith,
  eq_iff (make_backend_key m i) (make_backend_key m' i'),
  lookup-remove (make_backend_key m i) (make_backend_key m' i') app.draining,
)

-- Two different pairs of names share one key when a name holds the separator.
pub make_backend_key_collision :
    (a b c : String) → make_backend_key ((a ++ "::") ++ b) c ≡ make_backend_key a ((b ++ "::") ++ c)
unfolding make_backend_key
make_backend_key_collision a b c = simp append_assoc
