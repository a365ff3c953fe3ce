-- ===== src/Store/Leases/History.antt =====
-- A table of lapsing rows against the history of what was done to it.
use llm_router_server_dashbo.Base.{
  ℕ, ◌+◌, ◌≤◌, ◌≡◌, refl, ap, ◌∙◌, String, Bool, not, Option, none, some, List, [], ◌∷◌, leb, ltb,
  if◌then◌else◌, str_eq, arith, Bool-cases, inl, inr,
}
use llm_router_server_dashbo.Base.Dict.{
  lookup, insert, remove, keep, passing, HasDistinctKeys, lookup-insert, lookup-remove, lookup-keep,
  insert-HasDistinctKeys, remove-HasDistinctKeys, keep-HasDistinctKeys,
}
use llm_router_server_dashbo.Store.Leases.{
  Row, Table, upsert_row, remove_row, list_rows, prune_rows,
}

-- The statements on a table, with the clock at each.
pub data Statement (V : Type 0) : Type 0 where
  upserted : ℕ → String → V → ℕ → Statement V
  removed : String → Statement V
  pruned : ℕ → Statement V

module _ {V : Type 0} where
  unfoldable pub execute : Statement V → Table V → Table V
  unfolding upsert_row remove_row prune_rows
  execute (upserted now key columns ttl) table = upsert_row now key columns ttl table
  execute (removed key) table = remove_row key table
  execute (pruned now) table = prune_rows now table

  unfoldable pub execute_all : List (Statement V) → Table V → Table V
  execute_all [] table = table
  execute_all (s ∷ ss) table = execute_all ss (execute s table)

  -- The row that the statements about a key leave; a prune is about none.
  abbrev pub granted : String → Option (Row V) → List (Statement V) → Option (Row V)
  granted key row [] = row
  granted key row (upserted now k columns ttl ∷ ss) =
      granted key
        (if str_eq k key then some (record { columns = columns; expires_at = now + ttl }) else row)
        ss
  granted key row (removed k ∷ ss) = granted key (if str_eq k key then none else row) ss
  granted key row (pruned now ∷ ss) = granted key row ss

  -- No prune stands later.
  abbrev pub PrunedBy : ℕ → List (Statement V) → Type 0
  PrunedBy t [] = Unit
  PrunedBy t (upserted now k columns ttl ∷ ss) = PrunedBy t ss
  PrunedBy t (removed k ∷ ss) = PrunedBy t ss
  PrunedBy t (pruned now ∷ ss) = (now ≤ t) × PrunedBy t ss

  abbrev pub live : ℕ → Row V → Bool
  live t r = ltb t r.expires_at

  execute-HasDistinctKeys :
      (s : Statement V) (table : Table V)
      → HasDistinctKeys table
      → HasDistinctKeys (execute s table)
  unfolding execute
  execute-HasDistinctKeys (upserted now key columns ttl) table h =
      insert-HasDistinctKeys key (record { columns = columns; expires_at = now + ttl }) table h
  execute-HasDistinctKeys (removed key) table h = remove-HasDistinctKeys key table h
  execute-HasDistinctKeys (pruned now) table h =
      keep-HasDistinctKeys (λ r. not (leb r.expires_at now)) table h

  -- Rows that are alike at a time stay so.
  granted-live :
      (t : ℕ) (key : String) (ss : List (Statement V)) (row row' : Option (Row V))
      → passing (live t) row ≡ passing (live t) row'
      → passing (live t) (granted key row ss) ≡ passing (live t) (granted key row' ss)
  granted-live t key [] row row' e = e
  granted-live t key (upserted now k columns ttl ∷ ss) row row' e =
      elim (Bool-cases (str_eq k key)) [
        | inl same ↦ rw same refl
        | inr differ ↦ rw differ (granted-live t key ss row row' e)
      ]
  granted-live t key (removed k ∷ ss) row row' e = elim (Bool-cases (str_eq k key)) [
    | inl same ↦ rw same refl
    | inr differ ↦ rw differ (granted-live t key ss row row' e)
  ]
  granted-live t key (pruned now ∷ ss) row row' e = granted-live t key ss row row' e

  -- A row that lives at a time outlives every prune up to then.
  live-unpruned :
      (now t : ℕ) (row : Option (Row V))
      → now ≤ t
      → passing (live t) (passing (λ r. not (leb r.expires_at now)) row) ≡ passing (live t) row
  live-unpruned now t none h = refl
  live-unpruned now t (some r) h = ground arith

  lookup-execute_all :
      (t : ℕ) (key : String) (ss : List (Statement V)) (table : Table V)
      → HasDistinctKeys table
      → PrunedBy t ss
      → passing (live t) (lookup key (execute_all ss table))
        ≡ passing (live t) (granted key (lookup key table) ss)
  unfolding execute_all execute
  lookup-execute_all t key [] table h past = refl
  lookup-execute_all t key (upserted now k columns ttl ∷ ss) table h past =
      let row : Row V = record { columns = columns; expires_at = now + ttl } in
      lookup-execute_all t key ss (insert k row table) (insert-HasDistinctKeys k row table h) past
      ∙ ap (λ r. passing (live t) (granted key r ss)) (lookup-insert k key row table)
  lookup-execute_all t key (removed k ∷ ss) table h past =
      lookup-execute_all t key ss (remove k table) (remove-HasDistinctKeys k table h) past
      ∙ ap (λ r. passing (live t) (granted key r ss)) (lookup-remove k key table)
  lookup-execute_all t key (pruned now ∷ ss) table h (before, past) =
      let left = λ (r : Row V). not (leb r.expires_at now) in
      lookup-execute_all t key ss (keep left table) (keep-HasDistinctKeys left table h) past
      ∙ granted-live t key ss (lookup key (keep left table)) (lookup key table) (
          ap (passing (live t)) (lookup-keep left key table h)
          ∙ live-unpruned now t (lookup key table) before)

  execute_all-HasDistinctKeys :
      (ss : List (Statement V)) (table : Table V)
      → HasDistinctKeys table
      → HasDistinctKeys (execute_all ss table)
  unfolding execute_all
  execute_all-HasDistinctKeys [] table h = h
  execute_all-HasDistinctKeys (s ∷ ss) table h =
      execute_all-HasDistinctKeys ss (execute s table) (execute-HasDistinctKeys s table h)

  -- After any statements in any order, a table lists a key exactly where the last statement about it was a
  -- write whose lifetime has not passed, with what that write said. Prunes up to the time of the read, on
  -- whatever replica and however often, change nothing that is listed.
  pub lookup-list_rows :
      (t : ℕ) (key : String) (ss : List (Statement V))
      → PrunedBy t ss
      → lookup key (list_rows t (execute_all ss [])) ≡ passing (live t) (granted key none ss)
  unfolding list_rows lookup
  lookup-list_rows t key ss past =
      lookup-keep (live t) key (execute_all ss []) (execute_all-HasDistinctKeys ss [] tt)
      ∙ lookup-execute_all t key ss [] tt past
