-- ===== src/Fleet/Scheduler/Emptiest.antt =====
-- The greedy choice of a node.
use mathlib.Core.List.Memᴰ
use llm_router_server_dashbo.Base.{
  ◌≤◌, ◌≡◌, refl, true, false, inl, inr, List, [], ◌∷◌, Memᴰ, if◌then◌else◌, if-intro, Bool-cases,
  arith,
}
use llm_router_server_dashbo.Fleet.Scheduler.{Node, node_free_vram, precedes, emptiest}

-- The emptiest of the nodes is one of them, and none has more memory free.
pub emptiest-mem : (best : Node) (ns : List Node) → Memᴰ (emptiest best ns) (best ∷ ns)
unfolding emptiest
emptiest-mem best [] = Memᴰ.head refl
emptiest-mem best (n ∷ ns) =
    if-intro (λ b. Memᴰ (emptiest b ns) (best ∷ n ∷ ns)) (precedes n best) n best
      (λ _. Memᴰ.tail (emptiest-mem n ns)) (λ _. skip (emptiest-mem best ns))
  where
    skip : {a : Node} → Memᴰ a (best ∷ ns) → Memᴰ a (best ∷ n ∷ ns)
    skip (Memᴰ.head e) = Memᴰ.head e
    skip (Memᴰ.tail m) = Memᴰ.tail (Memᴰ.tail m)

precedes-free : (a b : Node) → precedes a b ≡ true → node_free_vram b ≤ node_free_vram a
unfolding precedes
precedes-free a b h = ground arith

not_precedes-free : (a b : Node) → precedes a b ≡ false → node_free_vram a ≤ node_free_vram b
unfolding precedes
not_precedes-free a b h = ground arith

emptiest-best :
    (best : Node) (ns : List Node) → node_free_vram best ≤ node_free_vram (emptiest best ns)
unfolding emptiest
emptiest-best best [] = omega arith
emptiest-best best (n ∷ ns) = elim (Bool-cases (precedes n best)) [
  | inl first ↦ rw first (omega (arith, emptiest-best n ns, precedes-free n best first))
  | inr later ↦ rw later (emptiest-best best ns)
]

emptiest-next :
    (best n : Node) (ns : List Node)
    → node_free_vram n ≤ node_free_vram (emptiest (if precedes n best then n else best) ns)
emptiest-next best n ns = elim (Bool-cases (precedes n best)) [
  | inl first ↦ rw first (emptiest-best n ns)
  | inr later ↦ rw later (omega (arith, emptiest-best best ns, not_precedes-free n best later))
]

emptiest-rest :
    (a best : Node) (ns : List Node)
    → Memᴰ a ns
    → node_free_vram a ≤ node_free_vram (emptiest best ns)
unfolding emptiest
emptiest-rest a best [] m = absurd (Memᴰ.not-nil m)
emptiest-rest a best (n ∷ ns) (Memᴰ.head e) = rw e (emptiest-next best n ns)
emptiest-rest a best (n ∷ ns) (Memᴰ.tail m) =
    emptiest-rest a (if precedes n best then n else best) ns m

pub emptiest-most :
    (a best : Node) (ns : List Node)
    → Memᴰ a (best ∷ ns)
    → node_free_vram a ≤ node_free_vram (emptiest best ns)
emptiest-most a best ns (Memᴰ.head e) = rw e (emptiest-best best ns)
emptiest-most a best ns (Memᴰ.tail m) = emptiest-rest a best ns m
