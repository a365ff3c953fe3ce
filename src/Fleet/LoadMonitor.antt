-- ===== src/Fleet/LoadMonitor.antt =====
-- aggregate_load of apps/backend/app/llmops/load_monitor.py: the load of each group, from the states of its instances and
-- the metrics that the router has of them. A metric is a whole number; a quotient is kept as its two parts.
pub mod Groups
use llm_router_server_dashbo.Base.{
  ℕ, suc, ◌+◌, String, Bool, true, false, not, ◌&&◌, Option, none, some, List, [], ◌∷◌, ◌++◌,
  length, or_default, ltb, ◌==◌, if◌then◌else◌,
}
use llm_router_server_dashbo.Base.Dict.{Dict, lookup, insert}
use llm_router_server_dashbo.Fleet.State.{
  ModelState, ModelKind, llm, embedding, is_ready, is_sleeping, is_stopped,
}
use Prim.Native.String as String
use Prim.Native.Char.{code}

pub record RegisteredInstance : Type 0 where
  pub key : String
  pub kind : ModelKind
  pub state : ModelState

-- A value of the router's answer.
pub data Value : Type 0 where
  no_value : Value
  not_number : Value
  number : ℕ → Value

pub record InstanceMetrics : Type 0 where
  pub waiting : Value
  pub running : Value
  pub kv_cache_usage_perc : Value

abbrev pub no_metrics : InstanceMetrics
no_metrics = record { waiting = no_value; running = no_value; kv_cache_usage_perc = no_value }

abbrev pub num : Value → ℕ
num (number n) = n
num _ = 0

pub record GroupStats : Type 0 where
  pub ready_replicas : ℕ
  pub asleep_replicas : ℕ
  pub stopped_replicas : ℕ
  pub waiting_total : ℕ
  pub running_total : ℕ
  -- kv_samples[group]
  pub kv_samples : List ℕ

abbrev pub no_stats : GroupStats
no_stats = record {
  ready_replicas = 0;
  asleep_replicas = 0;
  stopped_replicas = 0;
  waiting_total = 0;
  running_total = 0;
  kv_samples = [];
}

abbrev pub is_llm : ModelKind → Bool
is_llm llm = true
is_llm embedding = false

abbrev in_front : Prim.Native.Char.Char → String × String → String × String
in_front c (before, behind) = (String.◌∷◌ c before, behind)

-- key.partition("::"), without the separator
unfoldable pub partition : String → String × String
partition String.[] = ("", "")
partition (String.◌∷◌ c String.[]) = (String.◌∷◌ c "", "")
partition (String.◌∷◌ c (String.◌∷◌ d s)) =
    let rest = partition (String.◌∷◌ d s) in
    if code c == 58 && code d == 58 then ("", s) else in_front c rest

abbrev pub group_of : RegisteredInstance → String
group_of inst = (partition inst.key).0

-- (router_metrics.get(group) or {}).get(instance_id) or {}
abbrev pub metrics_for : Dict (Dict InstanceMetrics) → RegisteredInstance → InstanceMetrics
metrics_for metrics inst =
    or_default (lookup (partition inst.key).1 (or_default (lookup (group_of inst) metrics) []))
      no_metrics

abbrev pub sampled : Value → List ℕ
sampled no_value = []
sampled v = num v ∷ []

unfoldable pub with_replica : InstanceMetrics → ModelState → GroupStats → GroupStats
with_replica m state gl =
    if is_ready state
    then record gl {
      ready_replicas = suc gl.ready_replicas;
      waiting_total = gl.waiting_total + num m.waiting;
      running_total = gl.running_total + num m.running;
      kv_samples = gl.kv_samples ++ sampled m.kv_cache_usage_perc;
    }
    else if is_sleeping state
    then record gl { asleep_replicas = suc gl.asleep_replicas }
    else if is_stopped state
    then record gl { stopped_replicas = suc gl.stopped_replicas }
    else gl

-- A round of the loop.
unfoldable pub add_replica :
    Dict (Dict InstanceMetrics) → RegisteredInstance → Dict GroupStats → Dict GroupStats
unfolding with_replica
add_replica metrics inst groups =
    if is_llm inst.kind
    then insert (group_of inst)
        (with_replica (metrics_for metrics inst) inst.state
          (or_default (lookup (group_of inst) groups) no_stats))
        groups
    else groups

unfoldable pub add_replicas :
    Dict (Dict InstanceMetrics) → List RegisteredInstance → Dict GroupStats → Dict GroupStats
unfolding add_replica
add_replicas metrics [] groups = groups
add_replicas metrics (inst ∷ instances) groups =
    add_replicas metrics instances (add_replica metrics inst groups)

pub record GroupReport : Type 0 where
  pub stats : GroupStats
  -- Each a numerator and a denominator; none is the default of zero.
  pub waiting_per_replica : Option (ℕ × ℕ)
  pub kv_avg : Option (ℕ × ℕ)

abbrev sum : List ℕ → ℕ
sum [] = 0
sum (n ∷ ns) = n + sum ns

unfoldable pub averaged : GroupStats → GroupReport
averaged gl = record {
  stats = gl;
  waiting_per_replica =
      if ltb 0 gl.ready_replicas then some (gl.waiting_total, gl.ready_replicas) else none;
  kv_avg =
      if ltb 0 (length gl.kv_samples) then some (sum gl.kv_samples, length gl.kv_samples) else none;
}

abbrev pub averages : Dict GroupStats → Dict GroupReport
averages [] = []
averages ((group, gl) ∷ groups) = (group, averaged gl) ∷ averages groups

unfoldable pub aggregate_load :
    List RegisteredInstance → Dict (Dict InstanceMetrics) → Dict GroupReport
unfolding add_replicas averaged
aggregate_load instances metrics = averages (add_replicas metrics instances [])
