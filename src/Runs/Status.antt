-- ===== src/Runs/Status.antt =====
-- The rows of the evaluations beside what the manager does: which status stands in the store.
use llm_router_server_dashbo.Base.{
  ℕ, ◌<◌, ◌≡◌, refl, sym, ap, ◌∙◌, subst, Bool, true, false, not, Option, none, some, List, [], ◌∷◌,
  filter, ◌==◌, ==_iff, if◌then◌else◌, arith, Bool-cases, ◌⊎◌, inl, inr,
}
use llm_router_server_dashbo.Runs.Table.{
  RunStatus, queued, running, is_queued, RunRow, flip_to_running, set_where,
}

abbrev pub status_at : ℕ → List RunRow → Option RunStatus
status_at k [] = none
status_at k (r ∷ rows) = if r.id == k then some r.status else status_at k rows

abbrev pub is_ended : RunStatus → Bool
is_ended queued = false
is_ended running = false
is_ended _ = true

-- The row of a run says this, or it was deleted.
abbrev pub Says : RunStatus → List RunRow → ℕ → Type 0
Says s rows k = (status_at k rows ≡ none) ⊎ (status_at k rows ≡ some s)

-- What has ended stays as it ended, or is deleted, and what is deleted does not come back: for the ids that were
-- given out.
abbrev pub Keeps : ℕ → List RunRow → List RunRow → Type 0
Keeps n rows rows' =
    (k : ℕ) (t : RunStatus) → k < n → is_ended t ≡ true → Says t rows k → Says t rows' k

pub status-set_where_ne :
    (id k : ℕ) (f : RunRow → RunRow) (rows : List RunRow)
    → ((r : RunRow) → (f r).id ≡ r.id)
    → (k == id) ≡ false
    → status_at k (set_where id f rows) ≡ status_at k rows
status-set_where_ne id k f [] same other = refl
status-set_where_ne id k f (r ∷ rows) same other = elim (Bool-cases (r.id == id)) [
  | inl hit ↦
      let away : (r.id == k) ≡ false = ground (arith, hit, other) in
      let moved : ((f r).id == k) ≡ false = subst (λ i. (i == k) ≡ false) (sym (same r)) away in
      rw hit (rw away (rw moved (status-set_where_ne id k f rows same other)))
  | inr miss ↦ rw miss (
      ap (λ o. if r.id == k then some r.status else o) (status-set_where_ne id k f rows same other))
]

-- No update makes a row.
pub status-set_where-none :
    (id k : ℕ) (f : RunRow → RunRow) (rows : List RunRow)
    → ((r : RunRow) → (f r).id ≡ r.id)
    → status_at k rows ≡ none
    → status_at k (set_where id f rows) ≡ none
status-set_where-none id k f [] same h = refl
status-set_where-none id k f (r ∷ rows) same h = elim (Bool-cases (r.id == k)) [
  | inl here ↦ let no : some r.status ≡ none = rw here at h in cc
  | inr away ↦
      let rest = status-set_where-none id k f rows same (rw away at h) in
      let moved : ((f r).id == k) ≡ false = subst (λ i. (i == k) ≡ false) (sym (same r)) away in
      elim (Bool-cases (r.id == id)) [
        | inl hit ↦ rw hit (rw moved rest)
        | inr miss ↦ rw miss (rw away rest)
      ]
]

pub Says-set_where_ne :
    (s : RunStatus) (id k : ℕ) (f : RunRow → RunRow) (rows : List RunRow)
    → ((r : RunRow) → (f r).id ≡ r.id)
    → (k == id) ≡ false
    → Says s rows k
    → Says s (set_where id f rows) k
Says-set_where_ne s id k f rows same other (inl gone) =
    inl (status-set_where_ne id k f rows same other ∙ gone)
Says-set_where_ne s id k f rows same other (inr there) =
    inr (status-set_where_ne id k f rows same other ∙ there)

status-delete :
    (id k : ℕ) (rows : List RunRow)
    → status_at k (filter (λ r. not (r.id == id)) rows)
      ≡ (if k == id then none else status_at k rows)
status-delete id k [] = ground arith
status-delete id k (r ∷ rows) = elim (Bool-cases (r.id == id)) [
  | inl hit ↦ rw hit (status-delete id k rows ∙ passes hit)
  | inr miss ↦ rw miss (elim (Bool-cases (r.id == k)) [
    | inl here ↦
        let other : (k == id) ≡ false = ground (arith, miss, here) in rw here (rw other refl)
    | inr away ↦ rw away (status-delete id k rows)
  ])
]
  where
    passes :
        (r.id == id) ≡ true
        → (if k == id then none else status_at k rows)
          ≡ (if k == id then none else if r.id == k then some r.status else status_at k rows)
    passes hit = elim (Bool-cases (k == id)) [
      | inl same ↦ rw same refl
      | inr other ↦ let away : (r.id == k) ≡ false = ground (arith, hit, other) in rw away refl
    ]

pub Says-delete :
    (s : RunStatus) (id k : ℕ) (rows : List RunRow)
    → Says s rows k
    → Says s (filter (λ r. not (r.id == id)) rows) k
Says-delete s id k rows h = elim (Bool-cases (k == id)) [
  | inl same ↦ inl (status-delete id k rows ∙ (rw same refl))
  | inr other ↦
      let e : status_at k (filter (λ r. not (r.id == id)) rows) ≡ status_at k rows =
        status-delete id k rows ∙ (rw other refl) in
      elim h [ inl gone ↦ inl (e ∙ gone) | inr there ↦ inr (e ∙ there) ]
]

-- A row does not say two things.
pub Says-differ :
    (s t : RunStatus) (rows : List RunRow) (k : ℕ)
    → is_ended s ≡ false
    → is_ended t ≡ true
    → Says s rows k
    → Says t rows k
    → status_at k rows ≡ none
Says-differ s t rows k unended over (inl gone) h = gone
Says-differ s t rows k unended over (inr there) (inl gone) = gone
Says-differ s t rows k unended over (inr here) (inr there) =
    let e : some t ≡ some s = sym there ∙ here in
    let no : is_ended t ≡ false =
      subst (λ o. elim o [ none ↦ false | some q ↦ is_ended q ] ≡ false) (sym e) unended in
    cc

-- An update of what has not ended leaves all that has.
pub set_where-Keeps :
    (n id : ℕ) (s : RunStatus) (f : RunRow → RunRow) (rows : List RunRow)
    → ((r : RunRow) → (f r).id ≡ r.id)
    → is_ended s ≡ false
    → Says s rows id
    → Keeps n rows (set_where id f rows)
set_where-Keeps n id s f rows same unended here k t lt over there = elim (Bool-cases (k == id)) [
  | inr other ↦ Says-set_where_ne t id k f rows same other there
  | inl hit ↦
      let e : id ≡ k = sym ((==_iff k id).0 hit) in
      inl (
        status-set_where-none id k f rows same
          (Says-differ s t rows k unended over (subst (Says s rows) e here) there))
]

pub flip_to_running-id : (now : ℕ) (r : RunRow) → (flip_to_running now r).id ≡ r.id
flip_to_running-id now r = elim (Bool-cases (is_queued r.status)) [
  | inl waits ↦ rw waits refl
  | inr not_waiting ↦ rw not_waiting refl
]

status-flip_to_running :
    (now id : ℕ) (rows : List RunRow)
    → status_at id rows ≡ some queued
    → status_at id (set_where id (flip_to_running now) rows) ≡ some running
status-flip_to_running now id [] h = cc
status-flip_to_running now id (r ∷ rows) h = elim (Bool-cases (r.id == id)) [
  | inl hit ↦
      let e : some r.status ≡ some queued = rw hit at h in
      let waits : is_queued r.status ≡ true =
        subst (λ o. elim o [ none ↦ false | some q ↦ is_queued q ] ≡ true) (sym e) refl in
      rw hit (rw waits (rw hit refl))
  | inr miss ↦ rw miss (rw miss (status-flip_to_running now id rows (rw miss at h)))
]

status-flip_of_running :
    (now id : ℕ) (rows : List RunRow)
    → status_at id rows ≡ some running
    → status_at id (set_where id (flip_to_running now) rows) ≡ some running
status-flip_of_running now id [] h = cc
status-flip_of_running now id (r ∷ rows) h = elim (Bool-cases (r.id == id)) [
  | inl hit ↦
      let e : some r.status ≡ some running = rw hit at h in
      let runs : is_queued r.status ≡ false =
        subst (λ o. elim o [ none ↦ false | some q ↦ is_queued q ] ≡ false) (sym e) refl in
      rw hit (rw runs (rw hit e))
  | inr miss ↦ rw miss (rw miss (status-flip_of_running now id rows (rw miss at h)))
]

-- The update of a start.
pub Says-flip_to_running :
    (now id : ℕ) (rows : List RunRow)
    → Says running rows id ⊎ Says queued rows id
    → Says running (set_where id (flip_to_running now) rows) id
Says-flip_to_running now id rows (inl (inl gone)) =
    inl (status-set_where-none id id (flip_to_running now) rows (flip_to_running-id now) gone)
Says-flip_to_running now id rows (inl (inr runs)) = inr (status-flip_of_running now id rows runs)
Says-flip_to_running now id rows (inr (inl gone)) =
    inl (status-set_where-none id id (flip_to_running now) rows (flip_to_running-id now) gone)
Says-flip_to_running now id rows (inr (inr waits)) = inr (status-flip_to_running now id rows waits)

pub Says-new_ne :
    (s : RunStatus) (r : RunRow) (rows : List RunRow) (k : ℕ)
    → (r.id == k) ≡ false
    → Says s rows k
    → Says s (r ∷ rows) k
Says-new_ne s r rows k other h = rw other h
