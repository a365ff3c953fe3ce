-- ===== src/Router/Poller.antt =====
-- One round of poll_metrics_forever of apps/router-server/src/llm_router/metrics_poller.py: the cache of
-- metrics that routing reads. The engines' answers are the functions of `Fleet`; a round that raises
-- ends the loop, and the calls here do not raise.
pub mod Names
pub mod Asked
pub mod Cache
use Prim.Native.String
use Prim.Native.String.{◌++◌}
use llm_router_server_dashbo.Base.{
  ℕ, String, Bool, true, false, ◌&&◌, Option, none, some, is_some, List, [], ◌∷◌, if◌then◌else◌,
  or_default, str_eq,
}
use mathlib.Core.List
use mathlib.Core.Option
use llm_router_server_dashbo.Base.Dict.{Dict, lookup, insert}
use llm_router_server_dashbo.Router.Load.{Metrics}
use llm_router_server_dashbo.Router.State.{Address}

-- A row of `list_instances_live`.
pub record LiveRow : Type 0 where
  pub group_key : String
  pub instance_id : String
  pub address : Address

pub record PollInstance : Type 0 where
  pub id : String
  pub host : Option String
  pub port : ℕ

-- The keys of a group, and of its `model_config`, that the poller reads.
pub record PollGroup : Type 0 where
  pub engine : Option String
  pub enable_sleep_mode : Bool
  pub instances : List PollInstance

-- `resp.json()` of `/metrics`, parsed, and whether `/is_sleeping` answers 200 and true.
pub record Fleet : Type 0 where
  pub scrape : Address → String → Metrics
  pub is_asleep : Address → Bool

-- What a round asks for an instance, and where.
pub record ScrapeTarget : Type 0 where
  pub model_key : String
  pub instance_id : String
  pub address : Address
  pub engine : String
  pub sleeps : Bool

-- live_addrs.get((group, id)): of two rows the later one counts.
unfoldable pub live_address : List LiveRow → String → String → Option Address
live_address [] m i = none
live_address (r ∷ rest) m i =
    let later = live_address rest m i in
    if is_some later
    then later
    else if str_eq r.group_key m && str_eq r.instance_id i
    then some r.address
    else none

abbrev pub target_of : List LiveRow → String → PollGroup → PollInstance → ScrapeTarget
target_of live m g i = record {
  model_key = m;
  instance_id = i.id;
  address =
      or_default (live_address live m i.id)
        (record { host = or_default i.host "localhost"; port = i.port });
  engine = or_default g.engine "vllm";
  sleeps = g.enable_sleep_mode;
}

-- The nested loops over the groups and their instances.
unfoldable pub targets : List LiveRow → Dict PollGroup → List ScrapeTarget
unfolding live_address
targets live [] = []
targets live ((m, g) ∷ rest) =
    List.◌++◌ (List.map (target_of live m g) g.instances) (targets live rest)

-- f"{model_key}\x00{instance['id']}"
unfoldable pub composite : String → String → String
composite m i = m ++ String.◌∷◌ "\0" i

abbrev pub key_of : ScrapeTarget → String
key_of t = composite t.model_key t.instance_id

-- backends[composite] = (url, engine)
unfoldable pub backends : List ScrapeTarget → Dict (Address × String) → Dict (Address × String)
backends [] d = d
backends (t ∷ ts) d = backends ts (insert (key_of t) (t.address, t.engine) d)

-- dict((name, f(value)) for name, value in d.items())
unfoldable pub map_values : {V W : Type 0} → (V → W) → Dict V → Dict W
map_values f [] = []
map_values f ((k, v) ∷ d) = (k, f v) ∷ map_values f d

abbrev pub ask : ScrapeTarget → Option (Address × String) → Dict Address → Dict Address
ask t none d = d
ask t (some (address, engine)) d = if t.sleeps then insert (key_of t) address d else d

unfoldable pub sleep_backends :
    Dict (Address × String) → List ScrapeTarget → Dict Address → Dict Address
sleep_backends known [] d = d
sleep_backends known (t ∷ ts) d = sleep_backends known ts (ask t (lookup (key_of t) known) d)

-- if sleeping.get(composite): metric.is_sleeping = True
abbrev pub marked : Option Bool → Metrics → Metrics
marked (some true) metric = record metric { is_sleeping = true }
marked (some false) metric = metric
marked none metric = metric

-- new_cache.setdefault(model_key, {})[instance_id] = metric
abbrev pub store_metric : ScrapeTarget → Option Metrics → Dict (Dict Metrics) → Dict (Dict Metrics)
store_metric t none cache = cache
store_metric t (some metric) cache =
    insert t.model_key (insert t.instance_id metric (or_default (lookup t.model_key cache) []))
      cache

unfoldable pub new_cache :
    Dict Metrics → Dict Bool → List ScrapeTarget → Dict (Dict Metrics) → Dict (Dict Metrics)
new_cache flat sleeping [] cache = cache
new_cache flat sleeping (t ∷ ts) cache =
    let metric = Option.map (marked (lookup (key_of t) sleeping)) (lookup (key_of t) flat) in
    new_cache flat sleeping ts (store_metric t metric cache)

-- A round, of what it asks.
unfoldable pub round : Fleet → List ScrapeTarget → Dict (Dict Metrics)
unfolding backends map_values sleep_backends new_cache composite
round fleet ts =
    let known = backends ts [] in
    let flat = map_values (λ v. fleet.scrape v.0 v.1) known in
    let sleeping = map_values fleet.is_asleep (sleep_backends known ts []) in
    new_cache flat sleeping ts []

unfoldable pub poll : Fleet → List LiveRow → Dict PollGroup → Dict (Dict Metrics)
unfolding targets round
poll fleet live groups = round fleet (targets live groups)
