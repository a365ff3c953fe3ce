-- ===== src/Router/Proxy/Handler.antt =====
-- The start and the end of `_proxy_to_backend`: the checks on the request, the answer, the clean-up,
-- and the generator that a streamed answer leaves behind.
use Prim.Native.String.{◌++◌}
use llm_router_server_dashbo.Base.{
  ℕ, ◌-◌, String, Bool, false, not, ◌&&◌, Option, none, some, List, [], ◌∷◌, ltb, or_default,
  if◌then◌else◌, str_eq, any, is_some,
}
use llm_router_server_dashbo.Router.Http.{HttpException, http_error}
use llm_router_server_dashbo.Router.State.{
  App, decr_inflight, mark_backend_failure, mark_backend_success,
}
use llm_router_server_dashbo.Router.Config.{Config}
use llm_router_server_dashbo.Router.Lora.{Target, resolve_model, build_route_chain}
use llm_router_server_dashbo.Router.Proxy.{
  Response, World, Keys, Frame, all_unavailable, bad_status, cooldown_seconds, walk,
}

-- A row of `_record_request`.
pub record LogRow : Type 0 where
  pub model_key : String
  pub instance_id : Option String
  pub status_code : Option ℕ
  pub error : Option String

-- How the handler ends: a whole body, a stream that is still to be sent, or an HTTP error.
pub data Answer : Type 0 where
  buffered : Response → String → Answer
  streaming : Response → Answer
  error : HttpException → Answer

pub record Ended : Type 0 where
  pub frame : Frame
  pub answer : Answer
  pub log : List LogRow

pub data ReadOutcome : Type 0 where
  content : String → ReadOutcome
  read_error : String → ReadOutcome

-- response.aread(), of httpx: the flag says whether the response is still open.
abbrev pub Read : Type 0
Read = Bool → Response → ReadOutcome

abbrev pub marked_failure : World → String → Frame → Frame
marked_failure w message f = record f {
  app =
      mark_backend_failure (w.env f.attempts_made).now f.app (or_default f.model_key "")
        (or_default f.instance_id "") message cooldown_seconds;
}

-- The verdict on the backend that answered.
unfoldable pub mark_answered : World → Response → Frame → Frame
mark_answered w r f =
    if ltb r.status_code 500
    then record f {
      app = mark_backend_success f.app (or_default f.model_key "") (or_default f.instance_id "");
    }
    else marked_failure w bad_status f

-- The `finally` block. Closing the stream (`__aexit__` of the HTTP client) is taken not to raise; where it did, the
-- decrement behind it would be passed over.
unfoldable pub clean_up : Frame → Frame
clean_up f =
    let closed =
      if f.owns_stream && f.stream_ctx
      then record f { open_streams = f.open_streams - 1; owns_stream = false }
      else f in
    if closed.inflight_counted
    then record closed {
      app =
          decr_inflight closed.app (or_default closed.model_key "")
            (or_default closed.instance_id "");
      inflight_counted = false;
    }
    else closed

abbrev pub log_row : Frame → Option ℕ → Option String → LogRow
log_row f status message = record {
  model_key = or_default f.model_key "";
  instance_id = f.instance_id;
  status_code = status;
  error = message;
}

-- `except Exception`: the mark needs the two locals.
unfoldable pub on_unexpected : World → String → Frame → Frame
on_unexpected w message f =
    if is_some f.instance_id && is_some f.model_key then marked_failure w message f else f

-- A body that was read is answered; a read that raised is the `except Exception` block.
unfoldable pub answer_body : World → Response → Frame → ReadOutcome → Ended
unfolding clean_up on_unexpected
answer_body w r f (content body) = record {
  frame = clean_up f;
  answer = buffered r body;
  log = log_row f (some r.status_code) none ∷ [];
}
answer_body w r f (read_error message) = record {
  frame = clean_up (on_unexpected w message f);
  answer = error (http_error 500 "Internal server error");
  log = log_row f none (some message) ∷ [];
}

-- The code behind the walk.
unfoldable pub answer_response : World → Read → Frame → Option Response → Ended
unfolding mark_answered answer_body clean_up
answer_response w read f none = record {
  frame = clean_up f;
  answer = error (or_default f.last_exc all_unavailable);
  log = [];
}
answer_response w read f (some r) =
    let f' = mark_answered w r f in
    if r.is_event_stream
    then record {
      frame = clean_up (record f' { owns_stream = false; inflight_counted = false });
      answer = streaming r;
      log = [];
    }
    else answer_body w r f' (read f'.owns_stream r)

-- `event_stream` to its end: a failure while sending is marked, and the `finally` block runs. Without
-- a stream, closing it raises, and no row is recorded.
unfoldable pub end_stream : World → Response → Frame → Option String → Frame × List LogRow
end_stream w r f message =
    let f' : Frame = elim message [ none ↦ f | some e ↦ marked_failure w e f ] in
    let freed = decr_inflight f'.app (or_default f'.model_key "") (or_default f'.instance_id "") in
    if f'.stream_ctx
    then (
      record f' { app = freed; open_streams = f'.open_streams - 1 },
      log_row f (some r.status_code) none ∷ [],
    )
    else (record f' { app = freed }, [])

abbrev chat_only_paths : List String
chat_only_paths =
    "/v1/chat/completions" ∷ "/v1/completions" ∷ "/v1/messages" ∷ "/v1/messages/count_tokens" ∷ []

-- The locals at the start.
abbrev pub start_frame : App → ℕ → Frame
start_frame app open_streams = record {
  app = app;
  model_key = none;
  instance_id = none;
  response = none;
  stream_ctx = false;
  owns_stream = false;
  inflight_counted = false;
  last_exc = none;
  attempts_made = 0;
  open_streams = open_streams;
}

abbrev refuse : Frame → ℕ → String → Ended
refuse f status detail = record { frame = f; answer = error (http_error status detail); log = [] }

-- upstream_path in _CHAT_ONLY_PATHS and resolved.get("kind", "chat") != "chat"
abbrev pub is_rejected : String → Target → Bool
is_rejected path primary =
    any (λ p. str_eq p path) chat_only_paths && not (str_eq primary.kind "chat")

unfoldable pub proxy_target :
    World → Read → Config → Keys → String → String → Frame → Option Target → Ended
unfolding answer_response
proxy_target w read config keys path requested f none =
    refuse f 404 (("Model '" ++ requested) ++ "' not found.")
proxy_target w read config keys path requested f (some primary) =
    if is_rejected path primary
    then refuse f 404 (
        (("Model '" ++ requested) ++ "' is a pooling model (kind=")
        ++ (primary.kind ++ "); use /v1/embeddings or /v1/rerank."))
    else let f' = walk w keys (build_route_chain config primary) f in
      answer_response w read f' f'.response

unfoldable pub proxy_to_backend :
    World → Read → Config → Keys → String → Option String → Frame → Ended
unfolding proxy_target
proxy_to_backend w read config keys path none f =
    refuse f 400 "Missing 'model' field in request body"
proxy_to_backend w read config keys path (some requested) f =
    if str_eq requested ""
    then refuse f 400 "Missing 'model' field in request body"
    else proxy_target w read config keys path requested f (resolve_model config requested)
