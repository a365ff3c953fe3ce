-- ===== src/Router/State.antt =====
-- apps/router-server/src/llm_router/backend_runtime_state.py: in-flight counts, failure cooldowns
-- and drain marks, kept on `app.state`. Times are natural numbers, and the clock is an argument.
pub mod Keys
pub mod Inflight
pub mod Marks
use Prim.Native.String.{◌++◌}
use llm_router_server_dashbo.Base.{
  ℕ, ◌+◌, ◌-◌, String, Bool, true, false, Option, none, some, leb, ltb, or_default, is_some,
  if◌then◌else◌,
}
use llm_router_server_dashbo.Base.Dict.{Dict, lookup, insert, remove}
use llm_router_server_dashbo.Router.Load.{Metrics}

pub record Health : Type 0 where
  pub fail_count : ℕ
  pub cooldown_until : ℕ
  pub last_error : Option String

pub record Address : Type 0 where
  pub host : String
  pub port : ℕ

-- The fields of FastAPI's `app.state` that routing reads and writes.
pub record App : Type 0 where
  pub backend_inflight : Dict ℕ
  pub backend_health : Dict Health
  pub draining : Dict ℕ
  pub metrics_cache : Dict (Dict Metrics)
  pub rr_counters : Dict ℕ
  pub routing_strategy : Option String

unfoldable pub make_backend_key : String → String → String
make_backend_key model_key instance_id = (model_key ++ "::") ++ instance_id

unfoldable pub get_inflight : App → String → String → ℕ
get_inflight app model_key instance_id =
    or_default (lookup (make_backend_key model_key instance_id) app.backend_inflight) 0

unfoldable pub incr_inflight : App → String → String → App
unfolding get_inflight
incr_inflight app model_key instance_id = record app {
  backend_inflight =
      insert (make_backend_key model_key instance_id) (get_inflight app model_key instance_id + 1)
        app.backend_inflight;
}

-- A count of one or less drops the entry, so the dictionary holds no zeros.
unfoldable pub decr_inflight : App → String → String → App
unfolding get_inflight
decr_inflight app model_key instance_id =
    let key = make_backend_key model_key instance_id in
    let current = get_inflight app model_key instance_id in
    if leb current 1
    then record app { backend_inflight = remove key app.backend_inflight }
    else record app { backend_inflight = insert key (current - 1) app.backend_inflight }

abbrev no_health : Health
no_health = record { fail_count = 0; cooldown_until = 0; last_error = none }

-- app.state.backend_health.get(key, {}), with the defaults of its fields
unfoldable pub health : App → String → String → Health
health app model_key instance_id =
    or_default (lookup (make_backend_key model_key instance_id) app.backend_health) no_health

unfoldable pub is_backend_in_cooldown : ℕ → App → String → String → Bool
unfolding health
is_backend_in_cooldown now app model_key instance_id =
    ltb now (health app model_key instance_id).cooldown_until

unfoldable pub mark_backend_failure : ℕ → App → String → String → String → ℕ → App
unfolding health
mark_backend_failure now app model_key instance_id error cooldown_seconds = record app {
  backend_health =
      insert (make_backend_key model_key instance_id)
        (record {
          fail_count = (health app model_key instance_id).fail_count + 1;
          cooldown_until = now + cooldown_seconds;
          last_error = some error;
        })
        app.backend_health;
}

-- Only a backend that has an entry is reset.
unfoldable pub mark_backend_success : App → String → String → App
mark_backend_success app model_key instance_id =
    let key = make_backend_key model_key instance_id in
    if is_some (lookup key app.backend_health)
    then record app {
      backend_health =
          insert key (record { fail_count = 0; cooldown_until = 0; last_error = none })
            app.backend_health;
    }
    else app

unfoldable pub mark_draining : ℕ → App → String → String → ℕ → App
mark_draining now app model_key instance_id ttl = record app {
  draining = insert (make_backend_key model_key instance_id) (now + ttl) app.draining;
}

unfoldable pub clear_draining : App → String → String → App
clear_draining app model_key instance_id = record app {
  draining = remove (make_backend_key model_key instance_id) app.draining;
}

-- A mark that has expired is dropped as it is read.
unfoldable pub is_draining : ℕ → App → String → String → Bool × App
is_draining now app model_key instance_id =
    let key = make_backend_key model_key instance_id in
    elim (lookup key app.draining) [
      | none ↦ (false, app)
      | some expires ↦
          if leb expires now
          then (false, record app { draining = remove key app.draining })
          else (true, app)
    ]
