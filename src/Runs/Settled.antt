-- ===== src/Runs/Settled.antt =====
-- What a pump leaves behind.
use llm_router_server_dashbo.Base.{
  ℕ, zero, suc, ◌<◌, ◌≡◌, refl, sym, ap, ◌∙◌, subst, String, Bool, true, false, none, some, is_some,
  List, [], ◌∷◌, ◌||◌, is_empty, length, ◌==◌, arith, Bool-cases, Option-cases, ◌⊎◌, inl, inr, All,
}
use llm_router_server_dashbo.Runs.Evals.{
  Env, EvalRequest, Evals, over, goes, find, pop, resolve_request, with_process, record_head,
  record_start, has, launch, is_full, turn, pump_loop, pump,
}

-- Every model that a waiting request names is still configured.
abbrev pub IsConfigured : Env → List (ℕ × EvalRequest) → Type 0
IsConfigured env pending = All (λ e. is_some (resolve_request env e.1) ≡ true) pending

-- Something runs, and the head of the queue does not fit beside it.
abbrev pub IsHeldUp : List ℕ → Evals → Type 0
IsHeldUp [] st = Unit
IsHeldUp (id ∷ rest) st = (is_empty st.procs ≡ false) × (is_full id st ≡ true)

abbrev pub IsSettled : Evals → Type 0
IsSettled st = (st.perf_busy ≡ true) ⊎ IsHeldUp st.waiting st

find-IsConfigured :
    (env : Env) (id : ℕ) (pending : List (ℕ × EvalRequest)) (req : EvalRequest)
    → IsConfigured env pending
    → find id pending ≡ some req
    → is_some (resolve_request env req) ≡ true
unfolding find
find-IsConfigured env id [] req h found = cc
find-IsConfigured env id ((i, r) ∷ pending) req (known, h) found = elim (Bool-cases (i == id)) [
  | inl same ↦
      let e : some r ≡ some req = rw same at found in
      subst (λ o. is_some (elim o [ none ↦ none | some q ↦ resolve_request env q ]) ≡ true) e known
  | inr other ↦ find-IsConfigured env id pending req h (rw other at found)
]

pop-IsConfigured :
    (env : Env) (id : ℕ) (pending : List (ℕ × EvalRequest))
    → IsConfigured env pending
    → IsConfigured env (pop id pending)
unfolding pop
pop-IsConfigured env id [] h = tt
pop-IsConfigured env id ((i, r) ∷ pending) (known, h) = elim (Bool-cases (i == id)) [
  | inl same ↦ rw same (pop-IsConfigured env id pending h)
  | inr other ↦ rw other (known, pop-IsConfigured env id pending h)
]

-- A launch goes on and leaves the queue as it is.
launch-goes :
    (env : Env) (id : ℕ) (st : Evals)
    → IsConfigured env st.pending
    → (next : Evals) × (launch env id st ≡ goes next)
      × (next.waiting ≡ st.waiting)
      × IsConfigured env next.pending
unfolding launch
launch-goes env id st h = elim (Option-cases (find id st.pending)) [
  | inl absent ↦ (st, rw (absent, launch) refl, refl, h)
  | inr (req, found) ↦ elim (Option-cases (resolve_request env req)) [
    | inl unknown ↦
        let known = find-IsConfigured env id st.pending req h found in
        let no : is_some {A = String × String × String} none ≡ true = rw unknown at known in cc
    | inr (target, known) ↦
        let taken = record st { pending = pop id st.pending } in
        (
          with_process id taken,
          rw (found, launch) (rw known refl),
          refl,
          pop-IsConfigured env id st.pending h,
        )
  ]
]

pump_loop-over :
    (fuel now : ℕ) (env : Env) (st : Evals)
    → turn env st.waiting st ≡ over
    → pump_loop (suc fuel) now env st ≡ some (false, st)
unfolding pump_loop
pump_loop-over fuel now env st e = rw (e, pump_loop) refl

pump_loop-goes :
    (fuel now : ℕ) (env : Env) (st next : Evals)
    → turn env st.waiting st ≡ goes next
    → pump_loop (suc fuel) now env st ≡ pump_loop fuel now env (record_head now st.waiting next)
unfolding pump_loop
pump_loop-goes fuel now env st next e = rw (e, pump_loop) refl

full-of_or : (a b : Bool) → (a || b) ≡ true → a ≡ false → b ≡ true
full-of_or a b h k = ground arith

nonempty-of_full : (id : ℕ) (st : Evals) → is_full id st ≡ true → is_empty st.procs ≡ false
nonempty-of_full id st full = elim (Bool-cases (is_empty st.procs)) [
  | inl idle ↦ let no : false ≡ true = rw idle at full in cc
  | inr runs ↦ runs
]

-- A turn ends the loop where the machine is settled, and else shortens the queue.
turn-shortens :
    (env : Env) (st : Evals) (ids : List ℕ)
    → ids ≡ st.waiting
    → IsConfigured env st.pending
    → ((turn env ids st ≡ over) × IsSettled st)
      ⊎ ((next : Evals) × (turn env ids st ≡ goes next)
          × (suc (length next.waiting) ≡ length ids)
          × IsConfigured env next.pending)
unfolding turn
turn-shortens env st [] e h = inl (refl, inr (subst (λ q. IsHeldUp q st) e tt))
turn-shortens env st (id ∷ rest) e h = elim (Bool-cases (st.perf_busy || is_full id st)) [
  | inl waits ↦ inl (
    rw (waits, turn) refl,
    elim (Bool-cases st.perf_busy) [
      | inl measuring ↦ inl measuring
      | inr free ↦
          let full = full-of_or st.perf_busy (is_full id st) waits free in
          inr (subst (λ q. IsHeldUp q st) e (nonempty-of_full id st full, full))
    ],
  )
  | inr fits ↦
      let (next, launched, queue, configured) =
        launch-goes env id (record st { waiting = rest }) h in
      inr (next, rw (fits, turn) launched, ap (λ q. suc (length q)) queue, configured)
]

-- The update of the row leaves the queue and the requests as they are.
record_head-parts :
    (now : ℕ) (ids : List ℕ) (next : Evals)
    → ((record_head now ids next).waiting ≡ next.waiting)
      × ((record_head now ids next).pending ≡ next.pending)
unfolding record_start
record_head-parts now [] next = (refl, refl)
record_head-parts now (id ∷ rest) next = elim (Bool-cases (has id next.spawning)) [
  | inl spawned ↦ rw (spawned, record_start) (refl, refl)
  | inr absent ↦ rw (absent, record_start) (refl, refl)
]

pump_loop-IsSettled :
    (fuel now : ℕ) (env : Env) (st : Evals)
    → length st.waiting < fuel
    → IsConfigured env st.pending
    → (next : Evals) × (pump_loop fuel now env st ≡ some (false, next)) × IsSettled next
pump_loop-IsSettled zero now env st enough h = absurd (omega arith)
pump_loop-IsSettled (suc fuel) now env st enough h = elim (turn-shortens env st st.waiting refl h) [
  | inl (ends, settled) ↦ (st, pump_loop-over fuel now env st ends, settled)
  | inr (next, goes_on, shorter, configured) ↦
      let recorded = record_head now st.waiting next in
      let (queue, pending) = record_head-parts now st.waiting next in
      let (last, result, settled) =
        pump_loop-IsSettled fuel now env recorded (omega (arith, ap length queue, shorter, enough))
          (subst (IsConfigured env) (sym pending) configured) in
      (last, pump_loop-goes fuel now env st next goes_on ∙ result, settled)
]

-- The loop of a pump ends, and it never leaves the machine idle while an evaluation waits: unless a load test owns
-- it, the queue is empty or something runs that its head does not fit beside. The models of the waiting
-- requests must still be configured; a launch of another raises and ends the pump.
pub pump-IsSettled :
    (now : ℕ) (env : Env) (st : Evals)
    → IsConfigured env st.pending
    → (next : Evals) × (pump now env st ≡ some (false, next)) × IsSettled next
unfolding pump
pump-IsSettled now env st h =
    pump_loop-IsSettled (suc (length st.waiting)) now env st (omega arith) h
