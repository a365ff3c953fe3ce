-- ===== src/Router/Examples/Reporting.antt =====
-- Runs of what the router reads in the answers of engines.
use llm_router_server_dashbo.Base.{
  All, ℕ, ◌+◌, ◌*◌, ◌≡◌, refl, String, Bool, true, false, Option, none, some, List, [], ◌∷◌, ◌++◌,
  arith, str_eq, if◌then◌else◌,
}
use llm_router_server_dashbo.Base.Dict.{Dict, lookup}
use llm_router_server_dashbo.Base.Json.{Json, num, dict, str, Fields, field, end}
use llm_router_server_dashbo.Base.Bytes.{bytes_of}
use llm_router_server_dashbo.Router.Load.{finite, Metrics}
use llm_router_server_dashbo.Router.State.{Address}
use llm_router_server_dashbo.Router.Usage.{Bytes, Captured, scan_sse_for_usage, event_stream}
use llm_router_server_dashbo.Router.Usage.Chunks.{joined, event_stream-joined}
use llm_router_server_dashbo.Router.Scrape.{parse_metrics}
use llm_router_server_dashbo.Router.Scrape.Numeral.{plus, minus}
use llm_router_server_dashbo.Router.Scrape.Exposition.{Line, IsLine, comment, sample, exposition}
use llm_router_server_dashbo.Router.Scrape.Readback.{summed, parse_metrics-exposition}
use llm_router_server_dashbo.Router.Poller.{LiveRow, PollInstance, PollGroup, Fleet, targets, poll}
use llm_router_server_dashbo.Router.Poller.Names.{last_target}
use llm_router_server_dashbo.Router.Poller.Cache.{cached, reported, cached-poll}

-- A reader of one payload.
abbrev payload : Bytes
payload = bytes_of "{\"usage\":{\"total_tokens\":7}}"

abbrev usage_object : Fields
usage_object = field "usage" (dict (field "total_tokens" (num 7) end)) end

abbrev reads : Bytes → Option Json
reads b = some (dict usage_object)

abbrev event : Bytes
event = bytes_of "data: {\"usage\":{\"total_tokens\":7}}\n\n"

-- The blank line comes in two parts.
abbrev chunks : List Bytes
chunks = bytes_of "data: {\"usage\":{\"total_tokens\":7}}\n" ∷ bytes_of "\ndata: [DONE]" ∷ []

event_stream-joined_example :
    event_stream reads chunks (some [], none) ≡ scan_sse_for_usage reads (joined chunks) none
event_stream-joined_example = event_stream-joined reads chunks none

captured_usage :
    event_stream reads chunks (some [], none)
    ≡ (some (bytes_of "data: [DONE]"), some (("total_tokens", num 7) ∷ []))
unfolding event_stream scan_sse_for_usage llm_router_server_dashbo.Router.Usage.split_event
    llm_router_server_dashbo.Router.Usage.handle_lines
    llm_router_server_dashbo.Router.Usage.handle_line
    llm_router_server_dashbo.Router.Usage.merge_usage llm_router_server_dashbo.Base.Dict.insert
captured_usage = refl

-- A message that is a text has no `get`: the round of the stream raises.
abbrev reads_error : Bytes → Option Json
reads_error b = some (dict (field "message" (str "usage limit") usage_object))

raises_on_text : event_stream reads_error (event ∷ []) (some [], none) ≡ (none, none)
unfolding event_stream scan_sse_for_usage llm_router_server_dashbo.Router.Usage.split_event
    llm_router_server_dashbo.Router.Usage.handle_lines
    llm_router_server_dashbo.Router.Usage.handle_line
raises_on_text = refl

abbrev lines : List Line
lines =
    comment " HELP vllm:num_requests_running"
    ∷ sample (record {
      first = "v";
      others = "llm:num_requests_running";
      labels = some "model_name=\"m\"";
      value = record { sign = none; whole = "2"; fraction = none; exponent = none };
    })
    ∷ sample (record {
      first = "v";
      others = "llm:num_requests_running";
      labels = none;
      value = record {
        sign = some plus;
        whole = "3";
        fraction = some "0";
        exponent = some (record { is_upper = false; sign = some minus; digits = "2" });
      };
    })
    ∷ []

abbrev float : String → ℕ
float literal = if str_eq literal "2" then 2_000 else 30

lines_ok : All IsLine lines
lines_ok = (
  refl,
  (
    (refl, refl, refl, ((refl, refl), tt)),
    ((refl, refl, tt, ((refl, (refl, refl)), (refl, refl))), tt),
  ),
)

parse_metrics-exposition_example :
    lookup "vllm:num_requests_running" (parse_metrics 0 (λ a b. a + b) float (exposition lines))
    ≡ summed 0 (λ a b. a + b) float "vllm:num_requests_running" none lines
parse_metrics-exposition_example =
    parse_metrics-exposition 0 (λ a b. a + b) float "vllm:num_requests_running" lines lines_ok

abbrev replicas : List PollInstance
replicas =
    record { id = "a"; host = none; port = 8001 }
    ∷ record { id = "b"; host = none; port = 8002 }
    ∷ []

abbrev groups : Dict PollGroup
groups =
    ("m", record { engine = none; enable_sleep_mode = true; instances = replicas })
    ∷ ("n", record { engine = some "sglang"; enable_sleep_mode = false; instances = replicas })
    ∷ []

abbrev scraped : Address → String → Metrics
scraped address engine = record {
  base_url = engine;
  running = finite address.port;
  waiting = finite 0;
  kv_cache_usage_perc = finite 0;
  prompt_tokens = finite 0;
  generation_tokens = finite 0;
  raw_metrics = none;
  is_sleeping = false;
}

abbrev fleet : Fleet
fleet = record { scrape = scraped; is_asleep = λ address. true }

abbrev live : List LiveRow
live = record { group_key = "m"; instance_id = "b"; address = record { host = "h"; port = 9 } } ∷ []

cached-poll_example :
    cached "m" "b" (poll fleet live groups)
    ≡ reported "m" "b" fleet (targets live groups) (last_target "m" "b" (targets live groups))
cached-poll_example = cached-poll "m" "b" refl fleet live groups (refl, (refl, tt))

cached_b :
    reported "m" "b" fleet (targets live groups) (last_target "m" "b" (targets live groups))
    ≡ some (record (scraped (record { host = "h"; port = 9 }) "vllm") { is_sleeping = true })
unfolding targets
cached_b = refl
