-- ===== src/Fleet/Examples/Agreement.antt =====
-- Runs of the theorems on what the store wants: a node that owns `m::a` and one that owns the rest.
use llm_router_server_dashbo.Base.{◌≡◌, refl, String, List, true, none, [], ◌∷◌, Memᴰ, inr}
use llm_router_server_dashbo.Base.Dict.{Dict, lookup}
use llm_router_server_dashbo.Fleet.State.{
  ModelState, Desired, ready, stopped, want_asleep, want_running,
}
use llm_router_server_dashbo.Fleet.Converge.{
  sleep, action_for, carry_out, converge_desired, foreign_assignments,
}
use llm_router_server_dashbo.Fleet.Converge.Settled.{carry_out-settles}
use llm_router_server_dashbo.Fleet.Converge.Owned.{IsDue, converge_desired-IsOwned}
use llm_router_server_dashbo.Fleet.Examples.{running}

abbrev node_here : String
node_here = "here"

-- `m::b` is assigned to another node, `m::c` to one that is gone.
abbrev assignments : Dict String
assignments = ("m::a", "here") ∷ ("m::b", "there") ∷ ("m::c", "gone") ∷ []

abbrev foreign : List String
foreign = "m::b" ∷ []

abbrev states : Dict ModelState
states = ("m::a", ready) ∷ ("m::b", stopped) ∷ []

abbrev desired : Dict Desired
desired = ("m::a", want_asleep) ∷ ("m::b", want_running) ∷ []

here : converge_desired foreign states desired ≡ ("m::a", sleep) ∷ []
unfolding converge_desired lookup
here = refl

acts : Memᴰ ("m::a", sleep) (converge_desired foreign states desired)
acts = rw here (Memᴰ.head refl)

foreign_run : foreign_assignments "here" ("here" ∷ "there" ∷ []) assignments ≡ foreign
unfolding foreign_assignments
foreign_run = refl

carry_out-settles_example :
    action_for want_asleep
      (carry_out 50
        (record { spawned = inr 8; called = true })
        (action_for want_asleep running.state)
        running).state
    ≡ none
carry_out-settles_example = carry_out-settles 50 8 want_asleep running refl refl

converge_desired-IsOwned_example :
    (node_here ≡ node_here) × IsDue foreign states desired ("m::a", sleep)
unfolding foreign_assignments lookup
converge_desired-IsOwned_example =
    converge_desired-IsOwned node_here ("here" ∷ "there" ∷ []) assignments states desired refl refl
      acts
