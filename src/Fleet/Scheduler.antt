-- ===== src/Fleet/Scheduler.antt =====
-- apps/backend/app/llmops/scheduler.py: which node runs each wanted instance. The JSON texts of a
-- node's capacity and engines are given parsed, `none` where the text is missing or no JSON.
pub mod Emptiest
pub mod Placement
use Prim.Native.String.{compare}
use Prim.Native.Nat.{Ordering}
use llm_router_server_dashbo.Base.{
  ℕ, ◌+◌, ◌-◌, String, Bool, true, false, not, ◌&&◌, ◌||◌, Option, none, some, List, [], ◌∷◌, any,
  filter, or_default, ltb, ◌==◌, str_eq, if◌then◌else◌,
}
use llm_router_server_dashbo.Base.Dict.{Dict, lookup, insert}

pub record Gpu : Type 0 where
  pub memory_total : ℕ
  pub memory_used : ℕ

pub record Node : Type 0 where
  pub node_id : String
  pub capacity : Option (List Gpu)
  pub engines : Option (List String)

-- sum(max(0, total - used)): the subtraction of ℕ stops at 0
free_of : List Gpu → ℕ
free_of [] = 0
free_of (g ∷ gs) = (g.memory_total - g.memory_used) + free_of gs

unfoldable pub node_free_vram : Node → ℕ
unfolding free_of
node_free_vram node = elim node.capacity [ none ↦ 0 | some gpus ↦ free_of gpus ]

-- A node that names no engine takes any. An empty JSON list is a text, and takes none.
unfoldable pub node_supports : Node → String → Bool
node_supports node engine = elim node.engines [
  | none ↦ true
  | some names ↦ any (λ e. str_eq e engine) names
]

-- {n["node_id"]: n for n in nodes}.get(id): the last of the nodes with the id
unfoldable pub node_by_id : String → List Node → Option Node
node_by_id id [] = none
node_by_id id (n ∷ ns) = elim (node_by_id id ns) [
  | some later ↦ some later
  | none ↦ if str_eq n.node_id id then some n else none
]

-- (-free, node_id) of a is less than that of b
unfoldable pub precedes : Node → Node → Bool
precedes a b =
    ltb (node_free_vram b) (node_free_vram a)
    || ((node_free_vram a == node_free_vram b)
        && elim (compare a.node_id b.node_id) [ Ordering.lt ↦ true | _ ↦ false ])

-- sorted(candidates, key=...)[0]
unfoldable pub emptiest : Node → List Node → Node
unfolding precedes
emptiest best [] = best
emptiest best (n ∷ ns) = emptiest (if precedes n best then n else best) ns

-- by_id.get(assignments.get(key)), if it can run the engine
unfoldable pub is_settled : List Node → Option String → String → Bool
is_settled nodes assigned engine = elim assigned [
  | none ↦ false
  | some id ↦ elim (node_by_id id nodes) [ none ↦ false | some n ↦ node_supports n engine ]
]

-- The change for one key, out of the nodes that can run its engine.
unfoldable pub choose : List Node → Option String → String → List Node → Option String
unfolding is_settled
choose nodes assigned engine [] = none
choose nodes assigned engine (n ∷ ns) =
    if is_settled nodes assigned engine then none else some (emptiest n ns).node_id

unfoldable pub change_for : List Node → Dict String → Dict String → String → Option String
unfolding choose
change_for nodes assignments key_engines key =
    let engine = or_default (lookup key key_engines) "vllm" in
    choose nodes (lookup key assignments) engine (filter (λ n. node_supports n engine) nodes)

-- changes[key] = node_id, where there is a change
unfoldable pub apply_change : String → Option String → Dict String → Dict String
apply_change key none changes = changes
apply_change key (some node_id) changes = insert key node_id changes

-- for key in desired
unfoldable pub place_all :
    List Node → Dict String → Dict String → Dict String → List String → Dict String
unfolding change_for apply_change
place_all nodes assignments key_engines changes [] = changes
place_all nodes assignments key_engines changes (key ∷ keys) =
    place_all nodes assignments key_engines
      (apply_change key (change_for nodes assignments key_engines key) changes) keys

-- Without nodes nothing changes: no candidate is left for any key.
unfoldable pub place : List String → List Node → Dict String → Dict String → Dict String
unfolding place_all
place desired nodes assignments key_engines = elim nodes [
  | [] ↦ []
  | n ∷ ns ↦ place_all (n ∷ ns) assignments key_engines [] desired
]

-- store.set_assignment for each change
unfoldable pub write_all : Dict String → Dict String → Dict String
write_all assignments [] = assignments
write_all assignments ((key, node_id) ∷ changes) =
    write_all (insert key node_id assignments) changes

-- A pass that reads and writes the store.
unfoldable pub reschedule_once :
    List String → List Node → Dict String → Dict String → Dict String × Dict String
unfolding place write_all
reschedule_once desired nodes assignments key_engines =
    let changes = place desired nodes assignments key_engines in
    (changes, write_all assignments changes)
