-- ===== src/Store/Registry/Owners.antt =====
-- Which node an instance is assigned to.
use llm_router_server_dashbo.Base.{
  ℕ, ◌≡◌, refl, ap, ◌∙◌, String, Bool, true, false, Option, none, some, List, [], ◌∷◌, str_eq,
  if◌then◌else◌, Bool-cases, inl, inr,
}
use llm_router_server_dashbo.Base.Dict.{
  Dict, lookup, insert, remove, keep, passing, HasDistinctKeys, lookup-insert, lookup-remove,
  lookup-keep, insert-HasDistinctKeys, remove-HasDistinctKeys,
}
use llm_router_server_dashbo.Store.Registry.{
  Stamped, values, put, set_assignment, delete_assignment, list_assignments,
}

pub data Assignment : Type 0 where
  assigned : ℕ → String → String → Assignment
  unassigned : String → Assignment

unfoldable pub write_assignments : List Assignment → Dict (Stamped String) → Dict (Stamped String)
unfolding set_assignment delete_assignment
write_assignments [] table = table
write_assignments (assigned now key node_id ∷ rest) table =
    write_assignments rest (set_assignment now key node_id table)
write_assignments (unassigned key ∷ rest) table =
    write_assignments rest (delete_assignment key table)

-- The node that an instance was given to last.
abbrev pub owner : String → Option String → List Assignment → Option String
owner key node [] = node
owner key node (assigned now k node_id ∷ rest) =
    owner key (if str_eq k key then some node_id else node) rest
owner key node (unassigned k ∷ rest) = owner key (if str_eq k key then none else node) rest

abbrev value_of : Option (Stamped String) → Option String
value_of none = none
value_of (some s) = some s.value

lookup-values :
    (key : String) (table : Dict (Stamped String))
    → lookup key (values table) ≡ value_of (lookup key table)
unfolding lookup
lookup-values key [] = refl
lookup-values key ((k, s) ∷ rest) = elim (Bool-cases (str_eq k key)) [
  | inl same ↦ rw same refl
  | inr other ↦ rw other (lookup-values key rest)
]

value_of-if :
    (b : Bool) (o p : Option (Stamped String))
    → value_of (if b then o else p) ≡ (if b then value_of o else value_of p)
value_of-if true o p = refl
value_of-if false o p = refl

value_of-passing :
    (node_id : String) (o : Option (Stamped String))
    → value_of (passing (λ s. str_eq s.value node_id) o)
      ≡ passing (λ n. str_eq n node_id) (value_of o)
value_of-passing node_id none = refl
value_of-passing node_id (some s) = value_of-if (str_eq s.value node_id) (some s) none

written :
    (key : String) (ws : List Assignment) (table : Dict (Stamped String))
    → HasDistinctKeys table
    → HasDistinctKeys (write_assignments ws table)
      × (value_of (lookup key (write_assignments ws table))
          ≡ owner key (value_of (lookup key table)) ws)
unfolding write_assignments set_assignment delete_assignment put
written key [] table h = (h, refl)
written key (assigned now k node_id ∷ rest) table h =
    let s : Stamped String = record { value = node_id; updated_at = now } in
    let (distinct, e) = written key rest (insert k s table) (insert-HasDistinctKeys k s table h) in
    (
      distinct,
      e
          ∙ ap (λ o. owner key o rest)
              (ap value_of (lookup-insert k key s table)
                ∙ value_of-if (str_eq k key) (some s) (lookup key table)),
    )
written key (unassigned k ∷ rest) table h =
    let (distinct, e) = written key rest (remove k table) (remove-HasDistinctKeys k table h) in
    (
      distinct,
      e
          ∙ ap (λ o. owner key o rest)
              (ap value_of (lookup-remove k key table)
                ∙ value_of-if (str_eq k key) none (lookup key table)),
    )

-- A node is listed an instance exactly where the last write about it gave it to that node: no node sees one that
-- was given to another or taken away, in whatever order the writes of the scheduler came.
pub lookup-list_assignments :
    (ws : List Assignment) (key node_id : String)
    → lookup key (list_assignments (some node_id) (write_assignments ws []))
      ≡ passing (λ n. str_eq n node_id) (owner key none ws)
unfolding list_assignments lookup
lookup-list_assignments ws key node_id =
    let table = write_assignments ws [] in
    let (distinct, e) = written key ws [] tt in
    lookup-values key (keep (λ s. str_eq s.value node_id) table)
    ∙ ap value_of (lookup-keep (λ s. str_eq s.value node_id) key table distinct)
    ∙ value_of-passing node_id (lookup key table)
    ∙ ap (passing (λ n. str_eq n node_id)) e
