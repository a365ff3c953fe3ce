-- ===== src/Fleet/Converge.antt =====
-- converge_desired of apps/backend/app/llmops/reconciler.py: what a pass does to bring the instances of a
-- node to the state that the store wants, and one instance through its action.
pub mod Settled
pub mod Owned
use llm_router_server_dashbo.Base.{
  ℕ, ◌⊎◌, inl, inr, String, Bool, true, false, Option, none, some, List, [], ◌∷◌, if◌then◌else◌,
  is_some, not, ◌&&◌, any, str_eq,
}
use llm_router_server_dashbo.Base.Dict.{Dict, lookup}
use llm_router_server_dashbo.Fleet.State.{
  ModelState, stopped, starting, ready, sleeping, failed, stopping, Desired, want_running,
  want_asleep, want_stopped, is_stopping,
}
use llm_router_server_dashbo.Fleet.Instance.{Instance}
use llm_router_server_dashbo.Fleet.Manager.{
  Claim, claimed, already_running, conflict, begin_start, finish_start, fail_start, begin_stop,
  finish_stop, begin_sleep, finish_sleep, begin_wake, finish_wake,
}

-- The methods of the manager that a pass calls.
pub data Command : Type 0 where
  start stop sleep wake : Command

-- The chain of conditions of the loop's body.
abbrev pub action_for : Desired → ModelState → Option Command
action_for want_running stopped = some start
action_for want_stopped ready = some stop
action_for want_stopped starting = some stop
action_for want_stopped sleeping = some stop
action_for want_asleep ready = some sleep
action_for want_running sleeping = some wake
action_for want_running starting = none
action_for want_running ready = none
action_for want_running failed = none
action_for want_running stopping = none
action_for want_asleep stopped = none
action_for want_asleep starting = none
action_for want_asleep sleeping = none
action_for want_asleep failed = none
action_for want_asleep stopping = none
action_for want_stopped stopped = none
action_for want_stopped failed = none
action_for want_stopped stopping = none

abbrev pub planned : String → Option Command → List (String × Command) → List (String × Command)
planned key none rest = rest
planned key (some a) rest = (key, a) ∷ rest

abbrev pub wanted_action : Desired → Option ModelState → Option Command
wanted_action want none = none
wanted_action want (some state) = action_for want state

-- A node that is alive and not this one.
abbrev pub is_elsewhere : String → List String → String → Bool
is_elsewhere me alive node = not (str_eq node me) && any (λ a. str_eq a node) alive

-- foreign_assignments of the manager, from the assignments and the nodes that are alive: empty where the store
-- has neither.
unfoldable pub foreign_assignments : String → List String → Dict String → List String
foreign_assignments me alive [] = []
foreign_assignments me alive ((key, node) ∷ rest) =
    let later = foreign_assignments me alive rest in
    if is_elsewhere me alive node then key ∷ later else later

-- The calls of a pass, in the order of the store's rows.
unfoldable pub converge_desired :
    List String → Dict ModelState → Dict Desired → List (String × Command)
converge_desired foreign states [] = []
converge_desired foreign states ((key, want) ∷ rest) =
    let later = converge_desired foreign states rest in
    if any (λ k. str_eq k key) foreign
    then later
    else planned key (wanted_action want (lookup key states)) later

-- What a call meets outside: the error of the spawn or the pid of the process, and whether the engine
-- answered. The pre-flights of a start pass.
pub record Outside : Type 0 where
  pub spawned : String ⊎ ℕ
  pub called : Bool

abbrev pub spawn : ℕ → String ⊎ ℕ → Instance → Instance
spawn now (inr pid) inst = finish_start now pid inst
spawn now (inl error) inst = fail_start now error inst

-- The rest of a call, on the instance it claimed; a refusal is logged.
abbrev pub after_claim : (Instance → Instance) → Instance → Claim → Instance
after_claim finish inst already_running = inst
after_claim finish inst conflict = inst
after_claim finish inst (claimed next) = finish next

abbrev pub stopped_by : ℕ → Instance → Instance
stopped_by now next = if is_stopping next.state then finish_stop now next else next

unfoldable pub carry_out : ℕ → Outside → Option Command → Instance → Instance
carry_out now out none inst = inst
carry_out now out (some start) inst =
    after_claim (spawn now out.spawned) inst (begin_start now true inst)
carry_out now out (some stop) inst = stopped_by now (begin_stop now inst)
carry_out now out (some sleep) inst =
    after_claim (finish_sleep now out.called) inst (begin_sleep now inst)
carry_out now out (some wake) inst =
    after_claim (finish_wake now out.called) inst (begin_wake now inst)
