-- ===== src/Fleet/LoadMonitor/Groups.antt =====
-- The load of a group against its own instances.
use llm_router_server_dashbo.Base.{
  ◌≡◌, refl, ap, ◌∙◌, String, Bool, ◌&&◌, Option, none, some, List, [], ◌∷◌, filter, or_default,
  str_eq, eq_iff, if◌then◌else◌, Bool-cases, inl, inr,
}
use llm_router_server_dashbo.Base.Dict.{Dict, lookup, lookup-insert}
use llm_router_server_dashbo.Fleet.LoadMonitor.{
  RegisteredInstance, InstanceMetrics, GroupStats, no_stats, is_llm, group_of, metrics_for,
  with_replica, add_replica, add_replicas, GroupReport, averaged, averages, aggregate_load,
}

-- The instances of a group, alone.
abbrev pub is_in : String → RegisteredInstance → Bool
is_in group inst = is_llm inst.kind && str_eq (group_of inst) group

abbrev pub stats_of :
    Dict (Dict InstanceMetrics) → List RegisteredInstance → GroupStats → GroupStats
stats_of metrics [] gl = gl
stats_of metrics (inst ∷ instances) gl =
    stats_of metrics instances (with_replica (metrics_for metrics inst) inst.state gl)

-- What a group has: nothing where it has no instance.
abbrev pub stats_or_none :
    Dict (Dict InstanceMetrics) → List RegisteredInstance → Option GroupStats → Option GroupStats
stats_or_none metrics [] gl = gl
stats_or_none metrics (inst ∷ instances) gl =
    some (stats_of metrics (inst ∷ instances) (or_default gl no_stats))

stats_or_none-cons :
    (metrics : Dict (Dict InstanceMetrics)) (inst : RegisteredInstance)
    (mine : List RegisteredInstance) (gl : Option GroupStats)
    → stats_or_none metrics mine
        (some (with_replica (metrics_for metrics inst) inst.state (or_default gl no_stats)))
      ≡ stats_or_none metrics (inst ∷ mine) gl
stats_or_none-cons metrics inst [] gl = refl
stats_or_none-cons metrics inst (next ∷ mine) gl = refl

lookup-add_replica :
    (metrics : Dict (Dict InstanceMetrics)) (inst : RegisteredInstance) (group : String)
    (groups : Dict GroupStats)
    → lookup group (add_replica metrics inst groups) ≡ (
        if is_in group inst
        then some (
            with_replica
              (metrics_for metrics inst)
              inst.state
              (or_default (lookup group groups) no_stats))
        else lookup group groups)
unfolding add_replica
lookup-add_replica metrics inst group groups = elim (Bool-cases (is_llm inst.kind)) [
  | inr other ↦ rw (other, add_replica) refl
  | inl served ↦
      rw (served, add_replica)
        (lookup-insert (group_of inst) group
            (with_replica (metrics_for metrics inst) inst.state
              (or_default (lookup (group_of inst) groups) no_stats))
            groups
          ∙ elim (Bool-cases (str_eq (group_of inst) group)) [
            | inl mine ↦ rw mine (
                ap
                  (λ g. some (
                    with_replica (metrics_for metrics inst) inst.state
                      (or_default (lookup g groups) no_stats)))
                  ((eq_iff (group_of inst) group).0 mine))
            | inr others ↦ rw others refl
          ])
]

lookup-add_replicas :
    (metrics : Dict (Dict InstanceMetrics)) (instances : List RegisteredInstance) (group : String)
    (groups : Dict GroupStats)
    → lookup group (add_replicas metrics instances groups)
      ≡ stats_or_none metrics (filter (is_in group) instances) (lookup group groups)
unfolding add_replicas
lookup-add_replicas metrics [] group groups = refl
lookup-add_replicas metrics (inst ∷ instances) group groups =
    lookup-add_replicas metrics instances group (add_replica metrics inst groups)
    ∙ ap (stats_or_none metrics (filter (is_in group) instances))
        (lookup-add_replica metrics inst group groups)
    ∙ elim (Bool-cases (is_in group inst)) [
      | inl mine ↦
          rw mine
            (stats_or_none-cons metrics inst (filter (is_in group) instances) (lookup group groups))
      | inr others ↦ rw others refl
    ]

abbrev pub load_of : Option GroupStats → Option GroupReport
load_of none = none
load_of (some gl) = some (averaged gl)

lookup-averages :
    (group : String) (groups : Dict GroupStats)
    → lookup group (averages groups) ≡ load_of (lookup group groups)
unfolding lookup
lookup-averages group [] = refl
lookup-averages group ((g, gl) ∷ groups) = elim (Bool-cases (str_eq g group)) [
  | inl same ↦ rw same refl
  | inr other ↦ rw other (lookup-averages group groups)
]

-- The load of a group is that of its own language-model instances alone, in the order of the registry: instances of
-- other groups and of other kinds, wherever they stand, change nothing, and a group without instances has no load.
pub lookup-aggregate_load :
    (metrics : Dict (Dict InstanceMetrics)) (instances : List RegisteredInstance) (group : String)
    → lookup group (aggregate_load instances metrics)
      ≡ load_of (stats_or_none metrics (filter (is_in group) instances) none)
unfolding aggregate_load lookup
lookup-aggregate_load metrics instances group =
    lookup-averages group (add_replicas metrics instances [])
    ∙ ap load_of (lookup-add_replicas metrics instances group [])
