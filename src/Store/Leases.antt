-- ===== src/Store/Leases.antt =====
-- The tables of packages/llmops-store/llmops_store.py whose rows lapse: drain marks, live addresses, nodes and
-- observed states. A table is a dictionary by its primary key; a row has its time beside its columns.
pub mod History
pub mod Drains
use llm_router_server_dashbo.Base.{
  ℕ, ◌+◌, String, Bool, true, false, not, Option, none, some, List, [], ◌∷◌, leb, ltb, length, ◌-◌,
}
use llm_router_server_dashbo.Base.Dict.{Dict, lookup, insert, remove, keep}

pub record Row (V : Type 0) : Type 0 where
  pub columns : V
  pub expires_at : ℕ

abbrev pub Table : Type 0 → Type 0
Table V = Dict (Row V)

module _ {V : Type 0} where
  -- INSERT ... ON CONFLICT(key) DO UPDATE SET, of every column
  unfoldable pub upsert_row : ℕ → String → V → ℕ → Table V → Table V
  upsert_row now key columns ttl table =
      insert key (record { columns = columns; expires_at = now + ttl }) table

  -- DELETE ... WHERE key = ?
  unfoldable pub remove_row : String → Table V → Table V
  remove_row key table = remove key table

  -- SELECT ... WHERE expires_at > ?
  unfoldable pub list_rows : ℕ → Table V → Table V
  list_rows now table = keep (λ r. ltb now r.expires_at) table

  -- DELETE ... WHERE expires_at <= ?
  unfoldable pub prune_rows : ℕ → Table V → Table V
  prune_rows now table = keep (λ r. not (leb r.expires_at now)) table

pub record LiveInstance : Type 0 where
  pub group_key : String
  pub instance_id : String
  pub node_id : Option String
  pub host : String
  pub port : ℕ
  pub state : Option String

pub record NodeRow : Type 0 where
  pub hostname : Option String
  pub capacity : Option String
  pub engines : Option String
  pub api_url : Option String

pub record Observed : Type 0 where
  pub node_id : Option String
  pub state : Option String
  pub view : String

pub record Leases : Type 0 where
  pub draining : Table (Unit {0})
  pub instances_live : Table LiveInstance
  pub nodes : Table NodeRow
  pub instance_observed : Table Observed

unfoldable pub set_draining : ℕ → String → ℕ → Leases → Leases
unfolding upsert_row
set_draining now key ttl db = record db { draining = upsert_row now key tt ttl db.draining }

unfoldable pub clear_draining : String → Leases → Leases
unfolding remove_row
clear_draining key db = record db { draining = remove_row key db.draining }

-- {r["key"]: r["expires_at"]}
abbrev pub expiries : {V : Type 0} → Table V → Dict ℕ
expiries [] = []
expiries ((k, r) ∷ rest) = (k, r.expires_at) ∷ expiries rest

unfoldable pub list_draining : ℕ → Leases → Dict ℕ
unfolding list_rows
list_draining now db = expiries (list_rows now db.draining)

unfoldable pub upsert_instance_live : ℕ → String → LiveInstance → ℕ → Leases → Leases
unfolding upsert_row
upsert_instance_live now key columns ttl db = record db {
  instances_live = upsert_row now key columns ttl db.instances_live;
}

unfoldable pub remove_instance_live : String → Leases → Leases
unfolding remove_row
remove_instance_live key db = record db { instances_live = remove_row key db.instances_live }

unfoldable pub prune_instances_live : ℕ → Leases → Leases
unfolding prune_rows
prune_instances_live now db = record db { instances_live = prune_rows now db.instances_live }

unfoldable pub list_instances_live : ℕ → Leases → Table LiveInstance
unfolding list_rows
list_instances_live now db = list_rows now db.instances_live

unfoldable pub upsert_node : ℕ → String → NodeRow → ℕ → Leases → Leases
unfolding upsert_row
upsert_node now node_id columns ttl db = record db {
  nodes = upsert_row now node_id columns ttl db.nodes;
}

unfoldable pub list_nodes : ℕ → Leases → Table NodeRow
unfolding list_rows
list_nodes now db = list_rows now db.nodes

unfoldable pub prune_nodes : ℕ → Leases → Leases
unfolding prune_rows
prune_nodes now db = record db { nodes = prune_rows now db.nodes }

unfoldable pub upsert_instance_observed : ℕ → String → Observed → ℕ → Leases → Leases
unfolding upsert_row
upsert_instance_observed now key columns ttl db = record db {
  instance_observed = upsert_row now key columns ttl db.instance_observed;
}

unfoldable pub remove_instance_observed : String → Leases → Leases
unfolding remove_row
remove_instance_observed key db = record db {
  instance_observed = remove_row key db.instance_observed;
}

unfoldable pub list_instance_observed : ℕ → Leases → Table Observed
unfolding list_rows
list_instance_observed now db = list_rows now db.instance_observed

unfoldable pub prune_instance_observed : ℕ → Leases → Leases
unfolding prune_rows
prune_instance_observed now db = record db {
  instance_observed = prune_rows now db.instance_observed;
}
