-- ===== src/Runs/Order.antt =====
-- In what order the evaluations start.
use llm_router_server_dashbo.Base.{
  ℕ, ◌≤◌, ◌≡◌, refl, sym, ap, subst, Bool, true, false, not, is_some, List, [], ◌∷◌, ◌++◌, length,
  length-filter-le, filter, Option-cases, ◌==◌, if◌then◌else◌, if-intro, arith, Bool-cases, ◌⊎◌,
  inl, inr,
}
use llm_router_server_dashbo.Runs.Evals.{
  Env, EvalRequest, Exit, Evals, has, find, enqueue, record_start, submit, turn, watch, cancel,
}
use llm_router_server_dashbo.Runs.Steps.{
  Event, submitted, enqueued, turned, start_recorded, exited, cancel_asked, deleted, configured,
  load_test, or_same, after_turn, is_watched, on_event, on_events, launch-cases, submit-cases,
  turn-cases,
}
use llm_router_server_dashbo.Runs.Exclusion.{watch-procs, cancel-procs}

-- The first list is the second one with some left out.
abbrev pub IsSublist : List ℕ → List ℕ → Type 0
IsSublist a [] = a ≡ []
IsSublist a (y ∷ b) = IsSublist a b ⊎ ((rest : List ℕ) × (a ≡ y ∷ rest) × IsSublist rest b)

-- The id whose process an event has added to those there were.
abbrev pub newest : List ℕ → List ℕ → List ℕ
newest old [] = []
newest old (p ∷ ps) = if length ps == length old then p ∷ [] else []

-- The ids that get a process in a run of events, in this order.
abbrev pub all_started : List Event → Evals → List ℕ
all_started [] st = []
all_started (e ∷ es) st = newest st.procs (on_event e st).procs ++ all_started es (on_event e st)

-- The ids that join the queue.
abbrev pub joined : Event → Evals → List ℕ
joined (enqueued id) st = if is_some (find id st.inserted) then id ∷ [] else []
joined _ st = []

abbrev pub all_joined : List Event → Evals → List ℕ
all_joined [] st = []
all_joined (e ∷ es) st = joined e st ++ all_joined es (on_event e st)

nil-IsSublist : (b : List ℕ) → IsSublist [] b
nil-IsSublist [] = refl
nil-IsSublist (y ∷ b) = inl (nil-IsSublist b)

same-IsSublist : (a : List ℕ) → IsSublist a a
same-IsSublist [] = refl
same-IsSublist (x ∷ a) = inr (a, refl, same-IsSublist a)

trans-IsSublist : (a b c : List ℕ) → IsSublist a b → IsSublist b c → IsSublist a c
trans-IsSublist a b [] h k = subst (IsSublist a) k h
trans-IsSublist a b (z ∷ c) h (inl k) = inl (trans-IsSublist a b c h k)
trans-IsSublist a b (z ∷ c) h (inr (rest, e, k)) = elim (subst (IsSublist a) e h) [
  | inl left ↦ inl (trans-IsSublist a rest c left k)
  | inr (a', same, left) ↦ inr (a', same, trans-IsSublist a' rest c left k)
]

before-IsSublist : (p a b : List ℕ) → IsSublist a b → IsSublist (p ++ a) (p ++ b)
before-IsSublist [] a b h = h
before-IsSublist (x ∷ p) a b h = inr (p ++ a, refl, before-IsSublist p a b h)

behind-IsSublist : (a b c : List ℕ) → IsSublist a b → IsSublist (a ++ c) (b ++ c)
behind-IsSublist a [] c h = subst (λ x. IsSublist (x ++ c) c) (sym h) (same-IsSublist c)
behind-IsSublist a (y ∷ b) c (inl h) = inl (behind-IsSublist a b c h)
behind-IsSublist a (y ∷ b) c (inr (rest, e, h)) =
    inr (rest ++ c, ap (λ x. x ++ c) e, behind-IsSublist rest b c h)

filter-IsSublist : (f : ℕ → Bool) (a : List ℕ) → IsSublist (filter f a) a
filter-IsSublist f [] = refl
filter-IsSublist f (x ∷ a) = elim (Bool-cases (f x)) [
  | inl kept ↦ rw kept (inr (filter f a, refl, filter-IsSublist f a))
  | inr gone ↦ rw gone (inl (filter-IsSublist f a))
]

append_nil : (a : List ℕ) → a ++ [] ≡ a
append_nil [] = refl
append_nil (x ∷ a) = ap (λ r. x ∷ r) (append_nil a)

append_assoc : (a b c : List ℕ) → (a ++ b) ++ c ≡ a ++ (b ++ c)
append_assoc [] b c = refl
append_assoc (x ∷ a) b c = ap (λ r. x ∷ r) (append_assoc a b c)

newest-of_le : (old new : List ℕ) → length new ≤ length old → newest old new ≡ []
newest-of_le old [] h = refl
newest-of_le old (p ∷ ps) h =
    let no : (length ps == length old) ≡ false = ground arith in rw no refl

newest-cons : (p : ℕ) (old : List ℕ) → newest old (p ∷ old) ≡ p ∷ []
newest-cons p old = let yes : (length old == length old) ≡ true = ground arith in rw yes refl

-- What starts and then waits was in the queue or joined it, in this order.
abbrev IsStep : List ℕ → Evals → Evals → Type 0
IsStep new st next = IsSublist (newest st.procs next.procs ++ next.waiting) (st.waiting ++ new)

-- Nothing starts.
idle-IsStep :
    (st next : Evals)
    → length next.procs ≤ length st.procs
    → IsSublist next.waiting st.waiting
    → IsStep [] st next
idle-IsStep st next fewer queue =
    rw (newest-of_le st.procs next.procs fewer) (rw (append_nil st.waiting) queue)

stays-IsStep : (st : Evals) → IsStep [] st st
stays-IsStep st = idle-IsStep st st (omega arith) (same-IsSublist st.waiting)

turn-IsStep :
    (env : Env) (ids : List ℕ) (st : Evals)
    → ids ≡ st.waiting
    → IsSublist
        (newest st.procs (after_turn (turn env ids st) st).procs
          ++ (after_turn (turn env ids st) st).waiting)
        (ids ++ [])
unfolding turn
turn-IsStep env [] st e =
    subst (λ q. IsStep [] st st → IsSublist (newest st.procs st.procs ++ st.waiting) (q ++ []))
      (sym e) (λ h. h) (stays-IsStep st)
turn-IsStep env (id ∷ rest) st e = elim (turn-cases env id rest st) [
  | inl waits ↦ rw waits idle
  | inr (fits, launched) ↦ rw launched (elim (launch-cases env id (record st { waiting = rest })) [
    | inl none_pending ↦ rw none_pending (skips)
    | inr (inl raised) ↦ rw raised (skips)
    | inr (inr spawns) ↦ rw spawns (
        rw (newest-cons id st.procs) (inr (rest, refl, rw (append_nil rest) (same-IsSublist rest))))
  ])
]
  where
    idle : IsSublist (newest st.procs st.procs ++ st.waiting) ((id ∷ rest) ++ [])
    idle =
        subst (λ q. IsSublist (newest st.procs st.procs ++ st.waiting) (q ++ [])) (sym e)
          (stays-IsStep st)

    skips : IsSublist (newest st.procs st.procs ++ rest) ((id ∷ rest) ++ [])
    skips =
        rw (newest-of_le st.procs st.procs (omega arith))
          (inl (rw (append_nil rest) (same-IsSublist rest)))

enqueue-IsStep : (id : ℕ) (st : Evals) → IsStep (joined (enqueued id) st) st (enqueue id st)
unfolding enqueue
enqueue-IsStep id st = elim (Option-cases (find id st.inserted)) [
  | inl absent ↦ rw (absent, enqueue) (stays-IsStep st)
  | inr (req, found) ↦
      rw (found, enqueue)
        (rw (newest-of_le st.procs st.procs (omega arith)) (same-IsSublist (st.waiting ++ id ∷ [])))
]

watch-waiting :
    (now : ℕ) (env : Env) (id : ℕ) (exit : Exit) (st : Evals)
    → (watch now env id exit st).waiting ≡ st.waiting
unfolding watch
watch-waiting now env id exit st = elim (Bool-cases (has id st.cancelled_ids)) [
  | inl asked ↦ rw (asked, watch) refl
  | inr ran ↦ rw (ran, watch) refl
]

watch-IsStep :
    (now : ℕ) (env : Env) (id : ℕ) (exit : Exit) (st : Evals)
    → IsStep [] st (watch now env id exit st)
watch-IsStep now env id exit st =
    idle-IsStep st (watch now env id exit st)
      (subst (λ ps. length ps ≤ length st.procs) (sym (watch-procs now env id exit st))
        (length-filter-le (λ i. not (i == id)) st.procs))
      (subst (λ q. IsSublist q st.waiting) (sym (watch-waiting now env id exit st))
        (same-IsSublist st.waiting))

cancel-waiting : (now id : ℕ) (st : Evals) → IsSublist (cancel now id st).1.waiting st.waiting
unfolding cancel
cancel-waiting now id st = elim (Bool-cases (has id st.waiting)) [
  | inl waits ↦ rw (waits, cancel) (filter-IsSublist (λ i. not (i == id)) st.waiting)
  | inr gone ↦ elim (Bool-cases (has id st.procs)) [
    | inl runs ↦ rw (gone, cancel) (rw runs (same-IsSublist st.waiting))
    | inr unknown ↦ rw (gone, cancel) (rw unknown (same-IsSublist st.waiting))
  ]
]

submit-IsStep :
    (now : ℕ) (env : Env) (req : EvalRequest) (st : Evals)
    → IsStep [] st (or_same (submit now env req st) st)
submit-IsStep now env req st = elim (submit-cases now env req st) [
  | inl refused ↦ subst (λ r. IsStep [] st (or_same r st)) (sym refused) (stays-IsStep st)
  | inr (run, accepted) ↦ subst (λ r. IsStep [] st (or_same r st)) (sym accepted) (stays-IsStep st)
]

record_start-IsStep : (now id : ℕ) (st : Evals) → IsStep [] st (record_start now id st)
unfolding record_start
record_start-IsStep now id st = elim (Bool-cases (has id st.spawning)) [
  | inl spawned ↦ rw (spawned, record_start) (stays-IsStep st)
  | inr absent ↦ rw (absent, record_start) (stays-IsStep st)
]

on_event-IsStep : (e : Event) (st : Evals) → IsStep (joined e st) st (on_event e st)
unfolding on_event
on_event-IsStep (submitted now env req) st = submit-IsStep now env req st
on_event-IsStep (enqueued id) st = enqueue-IsStep id st
on_event-IsStep (turned env) st = turn-IsStep env st.waiting st refl
on_event-IsStep (start_recorded now id) st = record_start-IsStep now id st
on_event-IsStep (exited now env id exit) st =
    if-intro (IsStep [] st) (is_watched id st) (watch now env id exit st) st
      (λ runs. watch-IsStep now env id exit st) (λ gone. stays-IsStep st)
on_event-IsStep (cancel_asked now id) st =
    idle-IsStep st (cancel now id st).1
      (subst (λ ps. length ps ≤ length st.procs) (sym (cancel-procs now id st)) (omega arith))
      (cancel-waiting now id st)
on_event-IsStep (deleted id) st = stays-IsStep st
on_event-IsStep (configured budget) st = stays-IsStep st
on_event-IsStep (load_test is_on) st = stays-IsStep st

-- The evaluations start in the order in which they joined the queue. In any interleaving of the parts of
-- requests, turns, ends, cancellations and deletions, the ids that got a process, as they got it, and behind
-- them those that still wait, are the ids that waited at first and then those that joined, in that order: some
-- may be missing, but none is passed by one from behind it. A request joins when the insert of its row is back,
-- so that two requests at once may join in another order than that of their ids.
pub on_events-IsInOrder :
    (es : List Event) (st : Evals)
    → IsSublist (all_started es st ++ (on_events es st).waiting) (st.waiting ++ all_joined es st)
unfolding on_events
on_events-IsInOrder [] st = rw (append_nil st.waiting) (same-IsSublist st.waiting)
on_events-IsInOrder (e ∷ es) st =
    let next = on_event e st in
    let new = newest st.procs next.procs in
    let later =
      before-IsSublist new (all_started es next ++ (on_events es next).waiting)
        (next.waiting ++ all_joined es next) (on_events-IsInOrder es next) in
    let first =
      behind-IsSublist (new ++ next.waiting) (st.waiting ++ joined e st) (all_joined es next)
        (on_event-IsStep e st) in
    subst (λ a. IsSublist a (st.waiting ++ (joined e st ++ all_joined es next)))
      (sym (append_assoc new (all_started es next) (on_events es next).waiting))
      (subst (λ b. IsSublist (new ++ (all_started es next ++ (on_events es next).waiting)) b)
        (append_assoc st.waiting (joined e st) (all_joined es next))
        (trans-IsSublist (new ++ (all_started es next ++ (on_events es next).waiting))
          ((new ++ next.waiting) ++ all_joined es next)
          ((st.waiting ++ joined e st) ++ all_joined es next)
          (subst (λ b. IsSublist (new ++ (all_started es next ++ (on_events es next).waiting)) b)
            (sym (append_assoc new next.waiting (all_joined es next))) later)
          first))
