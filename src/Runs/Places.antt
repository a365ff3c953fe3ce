-- ===== src/Runs/Places.antt =====
-- Where an id of a run can stand in the manager: before the queue, in it, or with a process.
use llm_router_server_dashbo.Base.{
  ℕ, suc, ◌+◌, ◌≤◌, ◌≡◌, refl, sym, ap, subst, true, false, some, List, [], ◌∷◌, ◌++◌, ==_iff, ◌==◌,
  ltb, if◌then◌else◌, if-intro, arith, Bool-cases, inl, inr,
}
use llm_router_server_dashbo.Runs.Evals.{
  Env, EvalRequest, Evals, Exit, has, without, find, pop, queue_up, enqueue, record_start, submit,
  turn, watch, cancel,
}
use llm_router_server_dashbo.Runs.Table.{
  create_eval_run, delete_eval_run, finish_eval_run, start_eval_run,
}
use llm_router_server_dashbo.Runs.Steps.{
  Event, submitted, enqueued, turned, start_recorded, exited, cancel_asked, deleted, configured,
  load_test, or_same, after_turn, is_watched, on_event, launch-cases, submit-cases, enqueue-cases,
  turn-cases,
}

-- How often an id stands in a list.
abbrev pub count : ℕ → List ℕ → ℕ
count k [] = 0
count k (i ∷ ids) = let n = count k ids in if i == k then suc n else n

abbrev pub count_keys : ℕ → List (ℕ × EvalRequest) → ℕ
count_keys k [] = 0
count_keys k ((i, req) ∷ rest) = let n = count_keys k rest in if i == k then suc n else n

abbrev pub places : ℕ → Evals → ℕ
places k st = count_keys k st.inserted + (count k st.waiting + count k st.procs)

-- An id stands in one place at most, and one that no row has yet in none.
abbrev pub IsSeparate : Evals → Type 0
IsSeparate st = (k : ℕ) → places k st ≤ (if ltb k st.table.next_id then 1 else 0)

pub count-append : (k : ℕ) (a b : List ℕ) → count k (a ++ b) ≡ count k a + count k b
count-append k [] b = omega arith
count-append k (i ∷ a) b = ground (arith, count-append k a b)

pub count-without-le : (k id : ℕ) (ids : List ℕ) → count k (without id ids) ≤ count k ids
count-without-le k id [] = omega arith
count-without-le k id (i ∷ ids) = elim (Bool-cases (i == id)) [
  | inl same ↦ rw same (ground (arith, count-without-le k id ids))
  | inr other ↦ rw other (ground (arith, count-without-le k id ids))
]

pub count-without_ne :
    (k id : ℕ) (ids : List ℕ) → (k == id) ≡ false → count k (without id ids) ≡ count k ids
count-without_ne k id [] other = refl
count-without_ne k id (i ∷ ids) other = elim (Bool-cases (i == id)) [
  | inl same ↦
      let away : (i == k) ≡ false = ground (arith, same, other) in
      rw same (rw away (count-without_ne k id ids other))
  | inr differs ↦ rw differs (elim (Bool-cases (i == k)) [
    | inl here ↦ rw here (ap suc (count-without_ne k id ids other))
    | inr away ↦ rw away (count-without_ne k id ids other)
  ])
]

-- What stands in a list is not what does not.
pub apart-count : (k id : ℕ) (ids : List ℕ) → 1 ≤ count k ids → count id ids ≡ 0 → (k == id) ≡ false
apart-count k id ids there gone = elim (Bool-cases (k == id)) [
  | inr other ↦ other
  | inl same ↦
      let e = ap (λ j. count j ids) ((==_iff k id).0 same) in absurd (omega (arith, e, there, gone))
]

pub apart-count_keys :
    (k id : ℕ) (d : List (ℕ × EvalRequest))
    → 1 ≤ count_keys k d
    → count_keys id d ≡ 0
    → (k == id) ≡ false
apart-count_keys k id d there gone = elim (Bool-cases (k == id)) [
  | inr other ↦ other
  | inl same ↦
      let e = ap (λ j. count_keys j d) ((==_iff k id).0 same) in
      absurd (omega (arith, e, there, gone))
]

pub count-without : (id : ℕ) (ids : List ℕ) → count id (without id ids) ≡ 0
count-without id [] = refl
count-without id (i ∷ ids) = elim (Bool-cases (i == id)) [
  | inl same ↦ rw same (count-without id ids)
  | inr other ↦ rw other (rw other (count-without id ids))
]

pub count_keys-pop-le :
    (k id : ℕ) (d : List (ℕ × EvalRequest)) → count_keys k (pop id d) ≤ count_keys k d
unfolding pop
count_keys-pop-le k id [] = omega arith
count_keys-pop-le k id ((i, req) ∷ d) = elim (Bool-cases (i == id)) [
  | inl same ↦ rw same (ground (arith, count_keys-pop-le k id d))
  | inr other ↦ rw other (ground (arith, count_keys-pop-le k id d))
]

pub count_keys-pop : (id : ℕ) (d : List (ℕ × EvalRequest)) → count_keys id (pop id d) ≡ 0
unfolding pop
count_keys-pop id [] = refl
count_keys-pop id ((i, req) ∷ d) = elim (Bool-cases (i == id)) [
  | inl same ↦ rw same (count_keys-pop id d)
  | inr other ↦ rw other (rw other (count_keys-pop id d))
]

pub count_keys-find :
    (id : ℕ) (d : List (ℕ × EvalRequest)) (req : EvalRequest)
    → find id d ≡ some req
    → 1 ≤ count_keys id d
unfolding find
count_keys-find id [] req h = cc
count_keys-find id ((i, r) ∷ d) req h = elim (Bool-cases (i == id)) [
  | inl same ↦ rw same (omega arith)
  | inr other ↦ rw other (count_keys-find id d req (rw other at h))
]

pub count-has : (id : ℕ) (ids : List ℕ) → has id ids ≡ true → 1 ≤ count id ids
count-has id [] h = cc
count-has id (i ∷ ids) h = elim (Bool-cases (i == id)) [
  | inl same ↦ rw same (omega arith)
  | inr other ↦ rw other (count-has id ids (rw other at h))
]

pub has-count : (id : ℕ) (ids : List ℕ) → 1 ≤ count id ids → has id ids ≡ true
has-count id [] h = absurd (omega arith)
has-count id (i ∷ ids) h = elim (Bool-cases (i == id)) [
  | inl same ↦ rw same refl
  | inr other ↦ rw other (has-count id ids (rw other at h))
]

-- An id that moves or goes leaves no more places to any.
abbrev IsNoMore : Evals → Evals → Type 0
IsNoMore st next = (next.table.next_id ≡ st.table.next_id) × ((k : ℕ) → places k next ≤ places k st)

IsSeparate-of_no_more : (st next : Evals) → IsNoMore st next → IsSeparate st → IsSeparate next
IsSeparate-of_no_more st next (same, less) h k =
    subst (λ n. places k next ≤ (if ltb k n then 1 else 0)) (sym same) (omega (arith, less k, h k))

stays : (st : Evals) → IsNoMore st st
stays st = (refl, λ k. omega arith)

queue_up-IsNoMore :
    (id : ℕ) (req : EvalRequest) (st : Evals)
    → find id st.inserted ≡ some req
    → IsNoMore st (queue_up id req st)
queue_up-IsNoMore id req st found = (refl, λ k. moved k)
  where
    moved : (k : ℕ) → places k (queue_up id req st) ≤ places k st
    moved k = elim (Bool-cases (id == k)) [
      | inl same ↦
          let e : id ≡ k = ground (arith, same) in
          subst (λ j. places j (queue_up id req st) ≤ places j st) e
            (rw (count-append id st.waiting (id ∷ [])) (
              rw (count_keys-pop id st.inserted)
                (ground (arith, count_keys-find id st.inserted req found))))
      | inr other ↦
          rw (count-append k st.waiting (id ∷ []))
            (rw other (omega (arith, count_keys-pop-le k id st.inserted)))
    ]

enqueue-IsNoMore : (id : ℕ) (st : Evals) → IsNoMore st (enqueue id st)
enqueue-IsNoMore id st = elim (enqueue-cases id st) [
  | inl absent ↦ subst (IsNoMore st) (sym absent) (stays st)
  | inr (req, found, joined) ↦ subst (IsNoMore st) (sym joined) (queue_up-IsNoMore id req st found)
]

turn-IsNoMore :
    (env : Env) (ids : List ℕ) (st : Evals)
    → ids ≡ st.waiting
    → IsNoMore st (after_turn (turn env ids st) st)
unfolding turn
turn-IsNoMore env [] st e = stays st
turn-IsNoMore env (id ∷ rest) st e =
    let queue = λ (k : ℕ). ap (count k) e in
    elim (turn-cases env id rest st) [
      | inl waits ↦ subst (λ r. IsNoMore st (after_turn r st)) (sym waits) (stays st)
      | inr (fits, launched) ↦
          subst (λ r. IsNoMore st (after_turn r st)) (sym launched)
            (elim (launch-cases env id (record st { waiting = rest })) [
              | inl none_pending ↦
                  subst (λ r. IsNoMore st (after_turn r st)) (sym none_pending)
                    (refl, λ k. ground (arith, queue k))
              | inr (inl raised) ↦
                  subst (λ r. IsNoMore st (after_turn r st)) (sym raised)
                    (refl, λ k. ground (arith, queue k))
              | inr (inr spawns) ↦
                  subst (λ r. IsNoMore st (after_turn r st)) (sym spawns)
                    (refl, λ k. ground (arith, queue k))
            ])
    ]

record_start-IsNoMore : (now id : ℕ) (st : Evals) → IsNoMore st (record_start now id st)
unfolding record_start start_eval_run
record_start-IsNoMore now id st = elim (Bool-cases (has id st.spawning)) [
  | inl spawned ↦ rw (spawned, record_start) (refl, λ k. omega arith)
  | inr absent ↦ rw (absent, record_start) (stays st)
]

watch-IsNoMore :
    (now : ℕ) (env : Env) (id : ℕ) (exit : Exit) (st : Evals)
    → IsNoMore st (watch now env id exit st)
unfolding watch finish_eval_run
watch-IsNoMore now env id exit st = elim (Bool-cases (has id st.cancelled_ids)) [
  | inl asked ↦ rw (asked, watch) (refl, λ k. omega (arith, count-without-le k id st.procs))
  | inr ran ↦ rw (ran, watch) (refl, λ k. omega (arith, count-without-le k id st.procs))
]

cancel-IsNoMore : (now id : ℕ) (st : Evals) → IsNoMore st (cancel now id st).1
unfolding cancel finish_eval_run
cancel-IsNoMore now id st = elim (Bool-cases (has id st.waiting)) [
  | inl waits ↦ rw (waits, cancel) (refl, λ k. omega (arith, count-without-le k id st.waiting))
  | inr gone ↦ elim (Bool-cases (has id st.procs)) [
    | inl runs ↦ rw (gone, cancel) (rw runs (refl, λ k. omega arith))
    | inr unknown ↦ rw (gone, cancel) (rw unknown (stays st))
  ]
]

submit-IsSeparate :
    (now : ℕ) (env : Env) (req : EvalRequest) (st : Evals)
    → IsSeparate st
    → IsSeparate (or_same (submit now env req st) st)
unfolding create_eval_run
submit-IsSeparate now env req st h = elim (submit-cases now env req st) [
  | inl refused ↦ subst (λ r. IsSeparate (or_same r st)) (sym refused) h
  | inr (run, accepted) ↦
      subst (λ r. IsSeparate (or_same r st)) (sym accepted)
        (λ k.
          newest k st.table.next_id (count_keys k st.inserted)
            (count k st.waiting + count k st.procs) (h k))
]
  where
    newest :
        (k n a b : ℕ)
        → a + b ≤ (if ltb k n then 1 else 0)
        → (if n == k then suc a else a) + b ≤ (if ltb k (suc n) then 1 else 0)
    newest k n a b h = ground arith

pub on_event-IsSeparate : (e : Event) (st : Evals) → IsSeparate st → IsSeparate (on_event e st)
unfolding on_event delete_eval_run
on_event-IsSeparate (submitted now env req) st h = submit-IsSeparate now env req st h
on_event-IsSeparate (enqueued id) st h =
    IsSeparate-of_no_more st (enqueue id st) (enqueue-IsNoMore id st) h
on_event-IsSeparate (turned env) st h =
    IsSeparate-of_no_more st (after_turn (turn env st.waiting st) st)
      (turn-IsNoMore env st.waiting st refl) h
on_event-IsSeparate (start_recorded now id) st h =
    IsSeparate-of_no_more st (record_start now id st) (record_start-IsNoMore now id st) h
on_event-IsSeparate (exited now env id exit) st h =
    if-intro IsSeparate (is_watched id st) (watch now env id exit st) st
      (λ runs.
        IsSeparate-of_no_more st (watch now env id exit st) (watch-IsNoMore now env id exit st) h)
      (λ gone. h)
on_event-IsSeparate (cancel_asked now id) st h =
    IsSeparate-of_no_more st (cancel now id st).1 (cancel-IsNoMore now id st) h
on_event-IsSeparate (deleted id) st h = h
on_event-IsSeparate (configured budget) st h = h
on_event-IsSeparate (load_test is_on) st h = h
