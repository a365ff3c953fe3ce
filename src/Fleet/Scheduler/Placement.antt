-- ===== src/Fleet/Scheduler/Placement.antt =====
-- Where the scheduler places instances.
use llm_router_server_dashbo.Base.{
  ℕ, ◌+◌, ◌≤◌, ◌≡◌, refl, sym, ◌∙◌, ap, subst, String, Bool, true, false, not, ◌&&◌, ◌||◌, ◌⊎◌, inl,
  inr, Option, none, some, List, [], ◌∷◌, any, any-of_mem, filter, mem-filter, mem-filter_intro,
  filter-nil_no_mem, Memᴰ, All, All-of_mem, or_default, ltb, ltb→ge, ◌==◌, str_eq, eq_iff, eq_refl,
  if◌then◌else◌, if-intro, Bool-cases, Option-cases, arith,
}
use llm_router_server_dashbo.Base.Dict.{Dict, lookup, insert, lookup-insert}
use llm_router_server_dashbo.Fleet.Scheduler.{
  Node, node_free_vram, node_supports, emptiest, is_settled, choose, change_for, apply_change,
  place_all, place,
}
use llm_router_server_dashbo.Fleet.Scheduler.Emptiest.{emptiest-mem, emptiest-most}

-- o, or d where it is missing
abbrev pub first_some : Option String → Option String → Option String
first_some none d = d
first_some (some id) d = some id

lookup-apply_change :
    (k key : String) (o : Option String) (changes : Dict String)
    → lookup key (apply_change k o changes)
      ≡ (if str_eq k key then first_some o (lookup key changes) else lookup key changes)
unfolding apply_change
lookup-apply_change k key none changes =
    if-intro (λ r. lookup key changes ≡ r) (str_eq k key) _ _ (λ _. refl) (λ _. refl)
lookup-apply_change k key (some id) changes = lookup-insert k key id changes

-- A change set by `s`, then again by `b`.
merge :
    (o p : Option String) (s b : Bool) (d : Option String)
    → (s ≡ true → p ≡ o)
    → (if b
        then first_some o (if s then first_some p d else d)
        else (if s then first_some p d else d))
      ≡ (if s || b then first_some o d else d)
merge o p true true d h = rw (h refl) (twice o d)
  where
    twice : (o d : Option String) → first_some o (first_some o d) ≡ first_some o d
    twice none d = refl
    twice (some id) d = refl
merge o p true false d h = rw (h refl) refl
merge o p false true d h = refl
merge o p false false d h = refl

from_nothing :
    (b : Bool) (o d : Option String)
    → d ≡ none
    → (if b then first_some o d else d) ≡ (if b then o else none)
from_nothing true none d h = h
from_nothing true (some id) d h = refl
from_nothing false o d h = h

module _ (nodes : List Node) (assignments key_engines : Dict String) where
  abbrev engine_of : String → String
  engine_of key = or_default (lookup key key_engines) "vllm"

  abbrev wanted_in : List String → String → Bool
  wanted_in desired key = any (λ k. str_eq k key) desired

  -- What the changes hold for a key.
  place_all-lookup :
      (changes : Dict String) (desired : List String) (key : String)
      → lookup key (place_all nodes assignments key_engines changes desired) ≡ (
          if wanted_in desired key
          then first_some (change_for nodes assignments key_engines key) (lookup key changes)
          else lookup key changes)
  unfolding place_all
  place_all-lookup changes [] key = refl
  place_all-lookup changes (k ∷ keys) key =
      let here = lookup-apply_change k key (change_for nodes assignments key_engines k) changes in
      let rest =
        place_all-lookup (apply_change k (change_for nodes assignments key_engines k) changes) keys
          key in
      let own = change_for nodes assignments key_engines key in
      rest
      ∙ ap (λ d. if wanted_in keys key then first_some own d else d) here
      ∙ merge own (change_for nodes assignments key_engines k) (str_eq k key) (wanted_in keys key)
          (lookup key changes)
          (λ same. ap (change_for nodes assignments key_engines) ((eq_iff k key).0 same))

unmoved : {A : Type 0} (b : Bool) → ◌≡◌ {A = Option A} none (if b then none else none)
unmoved true = refl
unmoved false = refl

-- A wanted key's entry among the changes is its own change; no other key has one.
pub place-lookup :
    (nodes : List Node) (assignments key_engines : Dict String) (desired : List String)
    (key : String)
    → lookup key (place desired nodes assignments key_engines) ≡ (
        if any (λ k. str_eq k key) desired
        then change_for nodes assignments key_engines key
        else none)
unfolding place change_for choose llm_router_server_dashbo.Base.Dict.lookup
place-lookup [] assignments key_engines desired key = unmoved (any (λ k. str_eq k key) desired)
place-lookup (n ∷ ns) assignments key_engines desired key =
    place_all-lookup (n ∷ ns) assignments key_engines [] desired key
    ∙ from_nothing (any (λ k. str_eq k key) desired)
        (change_for (n ∷ ns) assignments key_engines key) (lookup key []) refl

module _ (nodes : List Node) (assigned : Option String) (engine : String) where
  -- The node to move to: a supporting one, with the most memory free among those.
  pub record IsTarget (n : Node) : Type 0 where
    pub member : Memᴰ n nodes
    pub supports : node_supports n engine ≡ true
    pub most_free :
        (a : Node)
        → Memᴰ a nodes
        → node_supports a engine ≡ true
        → node_free_vram a ≤ node_free_vram n

  -- What the change for one key says.
  abbrev pub IsPlaced : Option String → Type 0
  IsPlaced none =
      (is_settled nodes assigned engine ≡ true)
      ⊎ ((a : Node) → Memᴰ a nodes → node_supports a engine ≡ false)
  IsPlaced (some id) =
      (is_settled nodes assigned engine ≡ false) × (n : Node) × (n.node_id ≡ id) × IsTarget n

  choose-IsPlaced :
      (candidates : List Node)
      → filter (λ n. node_supports n engine) nodes ≡ candidates
      → IsPlaced (choose nodes assigned engine candidates)
  unfolding choose
  choose-IsPlaced [] e = inr (λ a m. filter-nil_no_mem (λ n. node_supports n engine) e m)
  choose-IsPlaced (n ∷ ns) e =
      if-intro IsPlaced (is_settled nodes assigned engine) none (some (emptiest n ns).node_id)
        (λ settled. inl settled)
        (λ moves.
          let found : Memᴰ (emptiest n ns) (filter (λ n. node_supports n engine) nodes) =
            rw e (emptiest-mem n ns) in
          let (member, supports) = mem-filter _ nodes found in
          (
            moves,
            emptiest n ns,
            refl,
            record {
              member = member;
              supports = supports;
              most_free = λ a m ok.
                  emptiest-most a n ns
                    (rw e at (mem-filter_intro (λ n. node_supports n engine) m ok));
            },
          ))

-- Each wanted instance stays where it is if its node is alive and can run its engine, or if no live
-- node can; else it moves to a node that can, with the most memory free among those. No other
-- instance is moved.
pub place-IsPlaced :
    (nodes : List Node) (assignments key_engines : Dict String) (desired : List String)
    (key : String)
    → let change = lookup key (place desired nodes assignments key_engines) in
      if any (λ k. str_eq k key) desired
      then IsPlaced nodes
          (lookup key assignments)
          (or_default (lookup key key_engines) "vllm")
          change
      else (change ≡ none)
place-IsPlaced nodes assignments key_engines desired key =
    let change = change_for nodes assignments key_engines key in
    let engine = or_default (lookup key key_engines) "vllm" in
    let placed : IsPlaced nodes (lookup key assignments) engine change =
      unfold change_for in choose-IsPlaced nodes (lookup key assignments) engine _ refl in
    rw (place-lookup nodes assignments key_engines desired key)
      (by_wish (any (λ k. str_eq k key) desired) change placed)
  where
    by_wish :
        (b : Bool) (o : Option String)
        → IsPlaced nodes (lookup key assignments) (or_default (lookup key key_engines) "vllm") o
        → (if b
            then IsPlaced nodes
                (lookup key assignments)
                (or_default (lookup key key_engines) "vllm")
                (if b then o else none)
            else ((if b then o else none) ≡ none))
    by_wish true o placed = placed
    by_wish false o placed = refl
