-- ===== src/Runs/Tracked/Begins.antt =====
-- The rows up to the process of a run: a request, the queue and a turn.
use llm_router_server_dashbo.Base.{
  ℕ, ◌+◌, ◌≤◌, ◌≡◌, refl, sym, ap, subst, true, false, List, [], ◌∷◌, ◌==◌, ==_iff, arith,
  Bool-cases, inl, inr, none, some,
}
use llm_router_server_dashbo.Runs.Table.{queued, running, RunRow, NewRun, new_row, create_eval_run}
use llm_router_server_dashbo.Runs.Evals.{
  Env, EvalRequest, Evals, has, find, pop, with_process, submit, enqueue, turn,
}
use llm_router_server_dashbo.Runs.Steps.{
  or_same, after_turn, launch-cases, submit-cases, enqueue-cases, turn-cases,
}
use llm_router_server_dashbo.Runs.Places.{
  count, count_keys, IsSeparate, count-append, count_keys-find, count_keys-pop-le,
}
use llm_router_server_dashbo.Runs.Status.{Says, Says-new_ne}
use llm_router_server_dashbo.Runs.Tracked.State.{IsStarted, IsTracked, Passes, stays}

pub submit-Passes :
    (now : ℕ) (env : Env) (req : EvalRequest) (st : Evals)
    → IsSeparate st
    → IsTracked st
    → Passes st (or_same (submit now env req st) st)
unfolding create_eval_run
submit-Passes now env req st apart h = elim (submit-cases now env req st) [
  | inl refused ↦ subst (λ r. Passes st (or_same r st)) (sym refused) (stays st h)
  | inr (run, accepted) ↦
      subst (λ r. Passes st (or_same r st)) (sym accepted)
        (record {
          tracked = record {
            begun = λ k there. new run k there;
            waits = λ k there.
                Says-new_ne queued (row run) rows k (ground (arith, apart k, there))
                  (h.waits k there);
            runs = λ k there. old run k (ground (arith, apart k, there)) (h.runs k there);
            spawned = h.spawned;
          };
          grows = omega arith;
          keeps = λ k t lt over there. Says-new_ne t (row run) rows k (ground (arith, lt)) there;
        })
]
  where
    rows : List RunRow
    rows = st.table.rows

    row : NewRun → RunRow
    row run = new_row st.table.next_id now queued none run

    new :
        (run : NewRun) (k : ℕ)
        → 1 ≤ count_keys k ((st.table.next_id, req) ∷ st.inserted)
        → Says queued (row run ∷ rows) k
    new run k there = elim (Bool-cases (st.table.next_id == k)) [
      | inl same ↦ inr (rw same refl)
      | inr other ↦ Says-new_ne queued (row run) rows k other (h.begun k (rw other at there))
    ]

    old :
        (run : NewRun) (k : ℕ)
        → (st.table.next_id == k) ≡ false
        → IsStarted st.spawning rows k
        → IsStarted st.spawning (row run ∷ rows) k
    old run k other (inl runs) = inl (Says-new_ne running (row run) rows k other runs)
    old run k other (inr (spawns, waits)) =
        inr (spawns, Says-new_ne queued (row run) rows k other waits)

pub enqueue-Passes : (id : ℕ) (st : Evals) → IsTracked st → Passes st (enqueue id st)
enqueue-Passes id st h = elim (enqueue-cases id st) [
  | inl absent ↦ subst (Passes st) (sym absent) (stays st h)
  | inr (req, found, joined) ↦ subst (Passes st) (sym joined) (record {
    tracked = record {
      begun = λ k there. h.begun k (omega (arith, count_keys-pop-le k id st.inserted, there));
      waits = λ k there.
          queue req found k (subst (λ n. 1 ≤ n) (count-append k st.waiting (id ∷ [])) there);
      runs = h.runs;
      spawned = h.spawned;
    };
    grows = omega arith;
    keeps = λ k t lt over there. there;
  })
]
  where
    queue :
        (req : EvalRequest)
        → find id st.inserted ≡ some req
        → (k : ℕ) → 1 ≤ count k st.waiting + count k (id ∷ [])
        → Says queued st.table.rows k
    queue req found k there = elim (Bool-cases (id == k)) [
      | inl same ↦
          subst (Says queued st.table.rows) ((==_iff id k).0 same)
            (h.begun id (count_keys-find id st.inserted req found))
      | inr other ↦ h.waits k (omega (arith, rw other at there))
    ]

-- The head of the queue is taken, and it is passed over or has a process.
dropped-Passes :
    (id : ℕ) (rest : List ℕ) (pending : List (ℕ × EvalRequest)) (st : Evals)
    → id ∷ rest ≡ st.waiting
    → IsTracked st
    → Passes st (record st { waiting = rest; pending = pending })
dropped-Passes id rest pending st e h = record {
  tracked = record {
    begun = h.begun;
    waits = λ k there. h.waits k (ground (arith, ap (count k) e, there));
    runs = h.runs;
    spawned = h.spawned;
  };
  grows = omega arith;
  keeps = λ k t lt over there. there;
}

spawned-Passes :
    (id : ℕ) (rest : List ℕ) (pending : List (ℕ × EvalRequest)) (st : Evals)
    → id ∷ rest ≡ st.waiting
    → IsTracked st
    → Passes st (with_process id (record st { waiting = rest; pending = pending }))
spawned-Passes id rest pending st e h = record {
  tracked = record {
    begun = h.begun;
    waits = λ k there. h.waits k (ground (arith, ap (count k) e, there));
    runs = λ k there. starts k there;
    spawned = λ k there. has_process k there;
  };
  grows = omega arith;
  keeps = λ k t lt over there. there;
}
  where
    starts : (k : ℕ) → 1 ≤ count k (id ∷ st.procs) → IsStarted (id ∷ st.spawning) st.table.rows k
    starts k there = elim (Bool-cases (id == k)) [
      | inl same ↦ inr (rw same refl, h.waits k (ground (arith, ap (count k) e, same)))
      | inr other ↦ elim (h.runs k (rw other at there)) [
        | inl runs ↦ inl runs
        | inr (spawns, waits) ↦ inr (rw other spawns, waits)
      ]
    ]

    has_process : (k : ℕ) → has k (id ∷ st.spawning) ≡ true → 1 ≤ count k (id ∷ st.procs)
    has_process k there = elim (Bool-cases (id == k)) [
      | inl same ↦ rw same (omega arith)
      | inr other ↦ rw other (h.spawned k (rw other at there))
    ]

pub turn-Passes :
    (env : Env) (ids : List ℕ) (st : Evals)
    → ids ≡ st.waiting
    → IsTracked st
    → Passes st (after_turn (turn env ids st) st)
unfolding turn
turn-Passes env [] st e h = stays st h
turn-Passes env (id ∷ rest) st e h = elim (turn-cases env id rest st) [
  | inl stops ↦ subst (λ r. Passes st (after_turn r st)) (sym stops) (stays st h)
  | inr (fits, launched) ↦
      subst (λ r. Passes st (after_turn r st)) (sym launched)
        (elim (launch-cases env id (record st { waiting = rest })) [
          | inl none_pending ↦
              subst (λ r. Passes st (after_turn r st)) (sym none_pending)
                (dropped-Passes id rest st.pending st e h)
          | inr (inl raised) ↦
              subst (λ r. Passes st (after_turn r st)) (sym raised)
                (dropped-Passes id rest (pop id st.pending) st e h)
          | inr (inr spawns) ↦
              subst (λ r. Passes st (after_turn r st)) (sym spawns)
                (spawned-Passes id rest (pop id st.pending) st e h)
        ])
]
