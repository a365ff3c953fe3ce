-- ===== src/Router/Proxy.antt =====
-- `_proxy_to_backend` of apps/router-server/src/llm_router/router.py: the attempts on the instances
-- of a group and the walk along the route chain. The locals of the function that live across
-- iterations are the fields of `Frame`; backends are the function `upstream` of `World`.
pub mod Handler
pub mod Keeps
pub mod Balance
pub mod Walk
pub mod Hold
pub mod Release
pub mod Stale
pub mod Bounds
use Prim.Native.String.{◌++◌}
use llm_router_server_dashbo.Base.{
  ℕ, zero, suc, ◌+◌, ◌-◌, String, Bool, true, false, not, ◌&&◌, Option, none, some, first_text,
  List, [], ◌∷◌, length, or_default, leb, ◌==◌, min, max, if◌then◌else◌, str_eq, is_some,
}
use llm_router_server_dashbo.Router.Http.{HttpException, Result, ok, raised, http_error}
use llm_router_server_dashbo.Router.State.{
  App, Address, incr_inflight, decr_inflight, mark_backend_failure,
}
use llm_router_server_dashbo.Router.Score.{Instance}
use llm_router_server_dashbo.Router.Strategies.{Env}
use llm_router_server_dashbo.Router.Config.{Group}
use llm_router_server_dashbo.Router.Select.{select_instance}
use llm_router_server_dashbo.Router.Lora.{Target}

-- What the backend sent before its body: the status, and whether the content type is an SSE stream.
pub record Response : Type 0 where
  pub status_code : ℕ
  pub is_event_stream : Bool

-- `client.stream(...).__aenter__()` raises, or there is a response.
pub data Outcome : Type 0 where
  failed : String → Outcome
  responded : Response → Outcome

-- The surroundings of one request: what the n-th attempt reads from the clock and the random
-- generator, what it gets from the backend at an address, and the addresses of `live_addrs`.
pub record World : Type 0 where
  pub env : ℕ → Env
  pub upstream : ℕ → Address → String → Outcome
  pub live_addrs : String → String → Option Address

-- What the strategies read of the request.
pub record Keys : Type 0 where
  pub session_key : Option String
  pub prompt_prefix : Option String

pub record Frame : Type 0 where
  pub app : App
  pub model_key : Option String
  pub instance_id : Option String
  pub response : Option Response
  pub stream_ctx : Bool
  pub owns_stream : Bool
  pub inflight_counted : Bool
  pub last_exc : Option HttpException
  pub attempts_made : ℕ
  pub open_streams : ℕ

unfoldable pub resolve_strategy : App → Group → String
resolve_strategy app model_cfg =
    or_default (first_text model_cfg.routing_strategy (first_text app.routing_strategy none))
      "least_load"

-- instance.get("host", "localhost") and the port, or the live address
unfoldable pub address_of : World → String → Instance → Address
address_of w model_key instance =
    or_default (w.live_addrs model_key instance.id)
      (record { host = or_default instance.host "localhost"; port = instance.port })

abbrev pub all_unavailable : HttpException
all_unavailable = http_error 503 "All backends unavailable"

-- str(e) of a 5xx; the number is not printed
abbrev pub bad_status : String
bad_status = "Received status code"

abbrev pub cooldown_seconds : ℕ
cooldown_seconds = 10_000

-- A transport error: the failure is marked and the slot given back.
unfoldable pub on_transport_error : World → String → String → String → Frame → Frame
on_transport_error w model_key instance_id error f = record f {
  app =
      decr_inflight
        (mark_backend_failure (w.env f.attempts_made).now f.app model_key instance_id error
          cooldown_seconds)
        model_key instance_id;
  inflight_counted = false;
  stream_ctx = false;
  attempts_made = f.attempts_made + 1;
}

-- A 5xx that another attempt may mend: marked, closed, and the slot given back. `response` keeps
-- the closed response.
unfoldable pub on_server_error : World → String → String → Frame → Frame
on_server_error w model_key instance_id f = record f {
  app =
      decr_inflight
        (mark_backend_failure (w.env f.attempts_made).now f.app model_key instance_id bad_status
          cooldown_seconds)
        model_key instance_id;
  owns_stream = false;
  stream_ctx = false;
  inflight_counted = false;
  attempts_made = f.attempts_made + 1;
  open_streams = f.open_streams - 1;
}

-- The stream of a response was entered.
unfoldable pub on_response : Response → Frame → Frame
on_response r f = record f {
  response = some r;
  stream_ctx = true;
  owns_stream = true;
  open_streams = f.open_streams + 1;
}

-- What follows the selection: `again` is the rest of the attempts, `is_last` that there is none.
unfoldable pub attempt_on :
    World → Target → String → Bool → (Frame → Frame × Bool) → Frame → Outcome → Frame × Bool
unfolding on_transport_error on_server_error on_response
attempt_on w t id is_last again f (failed error) =
    let f' = on_transport_error w t.route_key id error f in
    if is_last
    then (record f' { last_exc = some all_unavailable; response = none }, true)
    else again f'
attempt_on w t id is_last again f (responded r) =
    let f' = on_response r f in
    if leb 500 r.status_code && not is_last
    then again (on_server_error w t.route_key id f')
    else (record f' { attempts_made = f.attempts_made + 1 }, false)

-- The selection took an instance: its slot is counted and the backend is called.
unfoldable pub begin_attempt : Target → Instance → App → Frame → Frame
begin_attempt t instance app f = record f {
  app = incr_inflight app t.route_key instance.id;
  instance_id = some instance.id;
  inflight_counted = true;
}

abbrev pub affinity_key : String → String → Option String → Option String
affinity_key strategy wanted key = if str_eq strategy wanted then key else none

-- The call of `select_instance` that an attempt makes.
unfoldable pub selection :
    World → Keys → Target → String → List String → Frame → Result Instance × App
selection w keys t strategy tried f = select_instance (w.env f.attempts_made) f.app (record {
  model_key = t.route_key;
  instances = t.model_cfg.instances;
  strategy = some strategy;
  exclude = tried;
  session_key = affinity_key strategy "session_affinity" keys.session_key;
  prompt_prefix = affinity_key strategy "prefix_affinity" keys.prompt_prefix;
})

-- A selection that raised exhausts the group; an instance is called, and counts as tried.
unfoldable pub after_selection :
    World
    → Target
    → Bool
    → (List String → Frame → Frame × Bool)
    → List String
    → Frame
    → Result Instance × App
    → Frame × Bool
unfolding attempt_on begin_attempt
after_selection w t is_last again tried f (raised e, app') =
    (record f { app = app'; last_exc = some e }, true)
after_selection w t is_last again tried f (ok instance, app') =
    attempt_on w t instance.id is_last (again (instance.id ∷ tried))
      (begin_attempt t instance app' f)
      (w.upstream f.attempts_made (address_of w t.route_key instance) t.forward_name)

-- for attempt in range(max_attempts): the flag says whether the group was exhausted.
unfoldable pub attempts : World → Keys → Target → String → ℕ → List String → Frame → Frame × Bool
unfolding after_selection selection
attempts w keys t strategy zero tried f = (f, false)
attempts w keys t strategy (suc left) tried f =
    after_selection w t (left == 0) (attempts w keys t strategy left) tried f
      (selection w keys t strategy tried f)

unfoldable pub max_attempts : Group → ℕ
max_attempts model_cfg = max 1 (min (length model_cfg.instances) 3)

-- One target of the chain.
unfoldable pub try_target : World → Keys → Target → Frame → Frame × Bool
try_target w keys t f =
    attempts w keys t (resolve_strategy f.app t.model_cfg) (max_attempts t.model_cfg) []
      (record f { model_key = some t.route_key; response = none })

-- for target in chain: stop at the first that served.
unfoldable pub walk : World → Keys → List Target → Frame → Frame
walk w keys [] f = f
walk w keys (t ∷ ts) f =
    let (f', exhausted) = try_target w keys t f in
    if is_some f'.response && not exhausted then f' else walk w keys ts f'
