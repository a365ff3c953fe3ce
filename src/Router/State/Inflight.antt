-- ===== src/Router/State/Inflight.antt =====
-- The in-flight counts of backend_runtime_state.py: what is begun and not ended, per backend.
use llm_router_server_dashbo.Base.{
  ℕ, ◌+◌, ◌-◌, ◌≤◌, List, [], ◌∷◌, Bool-cases, refl, String, ◌≡◌, Bool, arith, if◌then◌else◌,
  str_eq, eq_iff, ◌∙◌, ap, sym, subst, true, All, leb, inl, inr,
}
use llm_router_server_dashbo.Base.Dict.{Dict, insert, remove, lookup-insert, lookup-remove}
use llm_router_server_dashbo.Router.State.{
  App, make_backend_key, get_inflight, incr_inflight, decr_inflight,
}
use llm_router_server_dashbo.Router.State.Keys.{no_colon, is_backend, make_backend_key-is_backend}

abbrev pub same_key : String → String → String → String → Bool
same_key m i m' i' = str_eq (make_backend_key m i) (make_backend_key m' i')

pub get_inflight-incr_inflight :
    (app : App) (m i m' i' : String)
    → get_inflight (incr_inflight app m i) m' i'
      ≡ (if same_key m i m' i' then get_inflight app m' i' + 1 else get_inflight app m' i')
unfolding get_inflight incr_inflight
get_inflight-incr_inflight app m i m' i' = ground (
  arith,
  eq_iff (make_backend_key m i) (make_backend_key m' i'),
  lookup-insert (make_backend_key m i) (make_backend_key m' i') (get_inflight app m i + 1)
      app.backend_inflight,
)

pub get_inflight-decr_inflight :
    (app : App) (m i m' i' : String)
    → get_inflight (decr_inflight app m i) m' i'
      ≡ (if same_key m i m' i' then get_inflight app m' i' - 1 else get_inflight app m' i')
unfolding get_inflight decr_inflight
get_inflight-decr_inflight app m i m' i' = ground (
  arith,
  eq_iff (make_backend_key m i) (make_backend_key m' i'),
  lookup-insert (make_backend_key m i) (make_backend_key m' i') (get_inflight app m i - 1)
      app.backend_inflight,
  lookup-remove (make_backend_key m i) (make_backend_key m' i') app.backend_inflight,
)

-- One request taking its slot, or giving it back, on one backend.
pub data Call : Type 0 where
  begins ends : String → String → Call

unfoldable pub apply : App → Call → App
apply app (begins m i) = incr_inflight app m i
apply app (ends m i) = decr_inflight app m i

unfoldable pub run : App → List Call → App
run app [] = app
run app (c ∷ cs) = run (apply app c) cs

abbrev pub calls_begun : String → String → List Call → ℕ
calls_begun m i [] = 0
calls_begun m i (begins m' i' ∷ cs) =
    let n = calls_begun m i cs in if is_backend m i m' i' then n + 1 else n
calls_begun m i (ends m' i' ∷ cs) = calls_begun m i cs

abbrev pub calls_ended : String → String → List Call → ℕ
calls_ended m i [] = 0
calls_ended m i (begins m' i' ∷ cs) = calls_ended m i cs
calls_ended m i (ends m' i' ∷ cs) =
    let n = calls_ended m i cs in if is_backend m i m' i' then n + 1 else n

-- No call of the backend ends that has not begun, where so many are open at first.
abbrev pub IsPaired : String → String → ℕ → List Call → Type 0
IsPaired m i held [] = Unit
IsPaired m i held (begins m' i' ∷ cs) =
    IsPaired m i (if is_backend m i m' i' then held + 1 else held) cs
IsPaired m i held (ends m' i' ∷ cs) =
    ((is_backend m i m' i' ≡ true) → 1 ≤ held)
    × IsPaired m i (if is_backend m i m' i' then held - 1 else held) cs

abbrev pub HasNoColon : Call → Type 0
HasNoColon (begins m i) = no_colon m ≡ true
HasNoColon (ends m i) = no_colon m ≡ true

begins-count :
    (app : App) (m i m' i' : String)
    → no_colon m ≡ true
    → no_colon m' ≡ true
    → get_inflight (incr_inflight app m' i') m i
      ≡ (if is_backend m i m' i' then get_inflight app m i + 1 else get_inflight app m i)
begins-count app m i m' i' h k =
    get_inflight-incr_inflight app m' i' m i
    ∙ ap (λ b. if b then get_inflight app m i + 1 else get_inflight app m i)
        (make_backend_key-is_backend m i m' i' h k)

ends-count :
    (app : App) (m i m' i' : String)
    → no_colon m ≡ true
    → no_colon m' ≡ true
    → get_inflight (decr_inflight app m' i') m i
      ≡ (if is_backend m i m' i' then get_inflight app m i - 1 else get_inflight app m i)
ends-count app m i m' i' h k =
    get_inflight-decr_inflight app m' i' m i
    ∙ ap (λ b. if b then get_inflight app m i - 1 else get_inflight app m i)
        (make_backend_key-is_backend m i m' i' h k)

-- The count of a backend is what is open: after any calls of any backends in any order, the count that is read
-- and the calls of this backend that ended are together the count at first and the calls of it that began.
-- Calls of another model or instance change nothing of it. No model's name has a colon, and no call of the
-- backend ends that has not begun.
pub get_inflight-run :
    (app : App) (cs : List Call) (m i : String)
    → no_colon m ≡ true
    → All HasNoColon cs
    → IsPaired m i (get_inflight app m i) cs
    → get_inflight (run app cs) m i + calls_ended m i cs ≡ get_inflight app m i + calls_begun m i cs
unfolding run apply
get_inflight-run app [] m i h names paired = refl
get_inflight-run app (begins m' i' ∷ cs) m i h names paired =
    let now = begins-count app m i m' i' h names.0 in
    let later =
      get_inflight-run (incr_inflight app m' i') cs m i h names.1
        (subst (λ n. IsPaired m i n cs) (sym now) paired) in
    elim (Bool-cases (is_backend m i m' i')) [
      | inl here ↦ rw here (omega (arith, rw here at now, later))
      | inr other ↦ rw other (omega (arith, rw other at now, later))
    ]
get_inflight-run app (ends m' i' ∷ cs) m i h names (held, paired) =
    let now = ends-count app m i m' i' h names.0 in
    let later =
      get_inflight-run (decr_inflight app m' i') cs m i h names.1
        (subst (λ n. IsPaired m i n cs) (sym now) paired) in
    elim (Bool-cases (is_backend m i m' i')) [
      | inl here ↦ rw here (omega (arith, rw here at now, later, held here))
      | inr other ↦ rw other (omega (arith, rw other at now, later))
    ]

-- No entry of the dictionary holds a zero.
abbrev pub IsPositive : Dict ℕ → Type 0
IsPositive [] = Unit
IsPositive ((k, n) ∷ d) = (1 ≤ n) × IsPositive d

insert-IsPositive :
    (k : String) (n : ℕ) (d : Dict ℕ) → 1 ≤ n → IsPositive d → IsPositive (insert k n d)
unfolding insert
insert-IsPositive k n [] h p = (h, tt)
insert-IsPositive k n ((j, w) ∷ d) h p = ground (arith, insert-IsPositive k n d)

remove-IsPositive : (k : String) (d : Dict ℕ) → IsPositive d → IsPositive (remove k d)
unfolding remove
remove-IsPositive k [] p = tt
remove-IsPositive k ((j, w) ∷ d) p = ground (arith, remove-IsPositive k d)

incr_inflight-IsPositive :
    (app : App) (m i : String)
    → IsPositive app.backend_inflight
    → IsPositive (incr_inflight app m i).backend_inflight
unfolding incr_inflight
incr_inflight-IsPositive app m i p =
    insert-IsPositive (make_backend_key m i) (get_inflight app m i + 1) app.backend_inflight
      (omega arith) p

decr_inflight-IsPositive :
    (app : App) (m i : String)
    → IsPositive app.backend_inflight
    → IsPositive (decr_inflight app m i).backend_inflight
unfolding decr_inflight
decr_inflight-IsPositive app m i p = elim (Bool-cases (leb (get_inflight app m i) 1)) [
  | inl small ↦ rw small (remove-IsPositive (make_backend_key m i) app.backend_inflight p)
  | inr large ↦ rw large (
      insert-IsPositive (make_backend_key m i) (get_inflight app m i - 1) app.backend_inflight
        (ground arith) p)
]

-- Whatever the calls, a finished backend leaves no entry: every entry holds at least one.
pub run-IsPositive :
    (app : App) (cs : List Call)
    → IsPositive app.backend_inflight
    → IsPositive (run app cs).backend_inflight
unfolding run apply
run-IsPositive app [] p = p
run-IsPositive app (begins m i ∷ cs) p =
    run-IsPositive (incr_inflight app m i) cs (incr_inflight-IsPositive app m i p)
run-IsPositive app (ends m i ∷ cs) p =
    run-IsPositive (decr_inflight app m i) cs (decr_inflight-IsPositive app m i p)
