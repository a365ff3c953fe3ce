-- ===== src/Runs/Budget.antt =====
-- How much runs at once.
use llm_router_server_dashbo.Base.{
  ℕ, ◌+◌, ◌≤◌, ◌≡◌, refl, sym, ap, subst, false, not, Option, none, some, List, [], ◌∷◌, ◌&&◌,
  length, length-filter-le, or_default, ltb, ◌==◌, is_empty, if◌then◌else◌, arith, Bool-cases, ◌⊎◌,
  inl, inr, All, suc, if-intro,
}
use llm_router_server_dashbo.Runs.Evals.{
  Env, EvalRequest, Evals, Exit, has, without, find, pop, used_by, used_budget, submit, is_full,
  turn, watch, cancel, enqueue, record_start,
}
use llm_router_server_dashbo.Runs.Table.{
  create_eval_run, delete_eval_run, start_eval_run, finish_eval_run,
}
use llm_router_server_dashbo.Runs.Steps.{
  Event, submitted, enqueued, turned, start_recorded, exited, cancel_asked, deleted, configured,
  load_test, or_same, after_turn, is_watched, on_event, on_events, launch-cases, submit-cases,
  enqueue-cases, turn-cases,
}
use llm_router_server_dashbo.Runs.Places.{count, count_keys-find, IsSeparate, on_event-IsSeparate}

module _ {V : Type 0} where
  find-pop :
      (id k : ℕ) (d : List (ℕ × V)) → find k (pop id d) ≡ (if k == id then none else find k d)
  unfolding find pop
  find-pop id k [] = ground arith
  find-pop id k ((i, v) ∷ d) = ground (arith, find-pop id k d)

used_by-fresh :
    (id n : ℕ) (batch : List (ℕ × ℕ)) (ids : List ℕ)
    → count id ids ≡ 0
    → used_by ((id, n) ∷ batch) ids ≡ used_by batch ids
unfolding used_by find
used_by-fresh id n batch [] h = refl
used_by-fresh id n batch (i ∷ ids) h = elim (Bool-cases (i == id)) [
  | inl same ↦ absurd (omega (arith, rw same at h))
  | inr differs ↦
      let other : (id == i) ≡ false = ground (arith, differs) in
      rw other
        (ap (λ u. or_default (find i batch) 0 + u) (used_by-fresh id n batch ids (rw differs at h)))
]

used_by-pop-le :
    (id : ℕ) (batch : List (ℕ × ℕ)) (ids : List ℕ) → used_by (pop id batch) ids ≤ used_by batch ids
unfolding used_by
used_by-pop-le id batch [] = omega arith
used_by-pop-le id batch (i ∷ ids) = elim (Bool-cases (i == id)) [
  | inl same ↦ rw (find-pop id i batch) (rw same (omega (arith, used_by-pop-le id batch ids)))
  | inr other ↦ rw (find-pop id i batch) (rw other (omega (arith, used_by-pop-le id batch ids)))
]

used_by-without-le :
    (id : ℕ) (batch : List (ℕ × ℕ)) (ids : List ℕ)
    → used_by batch (without id ids) ≤ used_by batch ids
unfolding used_by
used_by-without-le id batch [] = omega arith
used_by-without-le id batch (i ∷ ids) = elim (Bool-cases (i == id)) [
  | inl same ↦ rw same (omega (arith, used_by-without-le id batch ids))
  | inr other ↦ rw other (omega (arith, used_by-without-le id batch ids))
]

-- At most one process, or no more than the budget between them.
abbrev pub IsWithin : ℕ → Evals → Type 0
IsWithin limit st = (length st.procs ≤ 1) ⊎ (used_budget st ≤ limit)

-- The budget is kept.
pub record IsSound (limit : ℕ) (st : Evals) : Type 0 where
  pub budget : st.concurrency_budget ≤ limit
  pub within : IsWithin limit st

-- No budget that is set is above the limit.
abbrev pub IsAllowed : ℕ → Event → Type 0
IsAllowed limit (configured budget) = budget ≤ limit
IsAllowed limit _ = Unit

module _ (limit : ℕ) where
  within-watch :
      (id : ℕ) (batch : List (ℕ × ℕ)) (procs : List ℕ)
      → (length procs ≤ 1) ⊎ (used_by batch procs ≤ limit)
      → (length (without id procs) ≤ 1) ⊎ (used_by (pop id batch) (without id procs) ≤ limit)
  within-watch id batch procs (inl one) =
      inl (omega (arith, one, length-filter-le (λ i. not (i == id)) procs))
  within-watch id batch procs (inr within) = inr (
      omega (
        arith,
        within,
        used_by-pop-le id batch (without id procs),
        used_by-without-le id batch procs,
      ))

  submit-IsSound :
      (now : ℕ) (env : Env) (req : EvalRequest) (st : Evals)
      → IsSound limit st
      → IsSound limit (or_same (submit now env req st) st)
  unfolding create_eval_run used_budget
  submit-IsSound now env req st h = elim (submit-cases now env req st) [
    | inl refused ↦ subst (λ r. IsSound limit (or_same r st)) (sym refused) h
    | inr (run, accepted) ↦
        subst (λ r. IsSound limit (or_same r st)) (sym accepted)
          (record { budget = h.budget; within = h.within })
  ]

  -- An id that joins the queue has no process, so what runs takes as much as before.
  enqueue-IsSound :
      (id : ℕ) (st : Evals) → IsSeparate st → IsSound limit st → IsSound limit (enqueue id st)
  unfolding used_budget
  enqueue-IsSound id st apart h = elim (enqueue-cases id st) [
    | inl absent ↦ subst (IsSound limit) (sym absent) h
    | inr (req, found, joined) ↦
        let idle : count id st.procs ≡ 0 =
          ground (arith, apart id, count_keys-find id st.inserted req found) in
        subst (IsSound limit) (sym joined) (record {
          budget = h.budget;
          within = elim h.within [
            | inl one ↦ inl one
            | inr within ↦ inr (
                subst (λ u. u ≤ limit)
                  (sym (used_by-fresh id (or_default req.eval_batch_size 8) st.batch st.procs idle))
                  within)
          ];
        })
  ]

  fitting :
      (procs : List ℕ) (used budget : ℕ) (b : Option ℕ)
      → budget ≤ limit
      → (not (is_empty procs) && ltb budget (used + or_default b 8)) ≡ false
      → (suc (length procs) ≤ 1) ⊎ (or_default b 0 + used ≤ limit)
  fitting [] used budget b low fits = inl (omega arith)
  fitting (p ∷ procs) used budget none low fits = inr (ground arith)
  fitting (p ∷ procs) used budget (some n) low fits = inr (ground arith)

  within-spawned :
      (id : ℕ) (st : Evals)
      → st.concurrency_budget ≤ limit
      → is_full id st ≡ false
      → (length (id ∷ st.procs) ≤ 1) ⊎ (used_by st.batch (id ∷ st.procs) ≤ limit)
  unfolding used_budget used_by
  within-spawned id st budget fits =
      fitting st.procs (used_by st.batch st.procs) st.concurrency_budget (find id st.batch) budget
        fits

  turn-IsSound :
      (env : Env) (ids : List ℕ) (st : Evals)
      → ids ≡ st.waiting
      → IsSound limit st
      → IsSound limit (after_turn (turn env ids st) st)
  unfolding turn used_budget
  turn-IsSound env [] st e h = h
  turn-IsSound env (id ∷ rest) st e h =
      let popped : IsSound limit (record st { waiting = rest }) = record {
        budget = h.budget;
        within = h.within;
      } in
      elim (turn-cases env id rest st) [
        | inl waits ↦ subst (λ r. IsSound limit (after_turn r st)) (sym waits) h
        | inr (fits, launched) ↦
            subst (λ r. IsSound limit (after_turn r st)) (sym launched)
              (elim (launch-cases env id (record st { waiting = rest })) [
                | inl none_pending ↦
                    subst (λ r. IsSound limit (after_turn r st)) (sym none_pending) popped
                | inr (inl raised) ↦
                    subst (λ r. IsSound limit (after_turn r st)) (sym raised)
                      (record { budget = h.budget; within = h.within })
                | inr (inr spawns) ↦
                    subst (λ r. IsSound limit (after_turn r st)) (sym spawns)
                      (record { budget = h.budget; within = within-spawned id st h.budget fits })
              ])
      ]

  watch-IsSound :
      (now : ℕ) (env : Env) (id : ℕ) (exit : Exit) (st : Evals)
      → IsSound limit st
      → IsSound limit (watch now env id exit st)
  unfolding watch finish_eval_run used_budget
  watch-IsSound now env id exit st h = elim (Bool-cases (has id st.cancelled_ids)) [
    | inl asked ↦
        rw (asked, watch)
          (record { budget = h.budget; within = within-watch id st.batch st.procs h.within })
    | inr ran ↦
        rw (ran, watch)
          (record { budget = h.budget; within = within-watch id st.batch st.procs h.within })
  ]

  cancel-IsSound : (now id : ℕ) (st : Evals) → IsSound limit st → IsSound limit (cancel now id st).1
  unfolding cancel finish_eval_run used_budget
  cancel-IsSound now id st h = elim (Bool-cases (has id st.waiting)) [
    | inl waits ↦
        rw (waits, cancel)
          (record {
            budget = h.budget;
            within = elim h.within [
              | inl one ↦ inl one
              | inr within ↦ inr (omega (arith, within, used_by-pop-le id st.batch st.procs))
            ];
          })
    | inr gone ↦ elim (Bool-cases (has id st.procs)) [
      | inl runs ↦ rw (gone, cancel) (rw runs (record { budget = h.budget; within = h.within }))
      | inr unknown ↦ rw (gone, cancel) (rw unknown h)
    ]
  ]

  record_start-IsSound :
      (now id : ℕ) (st : Evals) → IsSound limit st → IsSound limit (record_start now id st)
  unfolding record_start start_eval_run used_budget
  record_start-IsSound now id st h = elim (Bool-cases (has id st.spawning)) [
    | inl spawned ↦ rw (spawned, record_start) (record { budget = h.budget; within = h.within })
    | inr absent ↦ rw (absent, record_start) h
  ]

  on_event-IsSound :
      (e : Event) (st : Evals)
      → IsAllowed limit e
      → IsSeparate st
      → IsSound limit st
      → IsSound limit (on_event e st)
  unfolding on_event delete_eval_run used_budget
  on_event-IsSound (submitted now env req) st allowed apart h = submit-IsSound now env req st h
  on_event-IsSound (enqueued id) st allowed apart h = enqueue-IsSound id st apart h
  on_event-IsSound (turned env) st allowed apart h = turn-IsSound env st.waiting st refl h
  on_event-IsSound (start_recorded now id) st allowed apart h = record_start-IsSound now id st h
  on_event-IsSound (exited now env id exit) st allowed apart h =
      if-intro (IsSound limit) (is_watched id st) (watch now env id exit st) st
        (λ runs. watch-IsSound now env id exit st h) (λ gone. h)
  on_event-IsSound (cancel_asked now id) st allowed apart h = cancel-IsSound now id st h
  on_event-IsSound (deleted id) st allowed apart h = record { budget = h.budget; within = h.within }
  on_event-IsSound (configured budget) st allowed apart h = record {
    budget = allowed;
    within = h.within;
  }
  on_event-IsSound (load_test is_on) st allowed apart h = record {
    budget = h.budget;
    within = h.within;
  }

-- However requests, deletions, cancellations, ends of processes and the turns of several pumps interleave, also
-- while one of them waits for the store, what runs beside each other never takes more than the largest budget
-- that was set; only a run alone may be larger.
pub on_events-IsWithin :
    (limit : ℕ) (es : List Event) (st : Evals)
    → All (IsAllowed limit) es
    → IsSeparate st
    → IsSound limit st
    → IsWithin limit (on_events es st)
unfolding on_events
on_events-IsWithin limit [] st allowed apart h = h.within
on_events-IsWithin limit (e ∷ es) st allowed apart h =
    on_events-IsWithin limit es (on_event e st) allowed.1 (on_event-IsSeparate e st apart)
      (on_event-IsSound limit e st allowed.0 apart h)
