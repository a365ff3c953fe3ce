-- ===== src/Store/Registry.antt =====
-- The plain tables of packages/llmops-store/llmops_store.py: wanted states, assignments and prices by their keys, the sinks of
-- alerts and the audit log by their ids.
pub mod Owners
use llm_router_server_dashbo.Base.{
  ℕ, zero, suc, max, min, String, Bool, true, false, not, ◌&&◌, Option, none, some, List, [], ◌∷◌,
  ◌++◌, any, filter, length, ◌-◌, ltb, leb, ◌==◌, str_eq, if◌then◌else◌,
}
use llm_router_server_dashbo.Base.Dict.{Dict, insert, remove, keep}

-- A value with its updated_at.
pub record Stamped (V : Type 0) : Type 0 where
  pub value : V
  pub updated_at : ℕ

abbrev pub values : {V : Type 0} → Dict (Stamped V) → Dict V
values [] = []
values ((k, s) ∷ rest) = (k, s.value) ∷ values rest

module _ {V : Type 0} where
  -- INSERT ... ON CONFLICT(key) DO UPDATE SET
  unfoldable pub put : ℕ → String → V → Dict (Stamped V) → Dict (Stamped V)
  put now key v table = insert key (record { value = v; updated_at = now }) table

unfoldable pub set_instance_desired :
    ℕ → String → String → Dict (Stamped String) → Dict (Stamped String)
unfolding put
set_instance_desired now key desired table = put now key desired table

abbrev pub list_instance_desired : Dict (Stamped String) → Dict String
list_instance_desired table = values table

unfoldable pub delete_instance_desired : String → Dict (Stamped String) → Dict (Stamped String)
delete_instance_desired key table = remove key table

unfoldable pub set_assignment : ℕ → String → String → Dict (Stamped String) → Dict (Stamped String)
unfolding put
set_assignment now key node_id table = put now key node_id table

unfoldable pub delete_assignment : String → Dict (Stamped String) → Dict (Stamped String)
delete_assignment key table = remove key table

unfoldable pub list_assignments : Option String → Dict (Stamped String) → Dict String
list_assignments none table = values table
list_assignments (some node_id) table = values (keep (λ s. str_eq s.value node_id) table)

pub record ModelPrice : Type 0 where
  pub input_price : ℕ
  pub output_price : ℕ
  pub currency : String

unfoldable pub set_model_price :
    ℕ → String → ModelPrice → Dict (Stamped ModelPrice) → Dict (Stamped ModelPrice)
unfolding put
set_model_price now model price table = put now model price table

unfoldable pub delete_model_price :
    String → Dict (Stamped ModelPrice) → Bool × Dict (Stamped ModelPrice)
delete_model_price model table =
    let kept = remove model table in (ltb (length kept) (length table), kept)

pub record AlertSink : Type 0 where
  pub id : ℕ
  pub type : String
  pub url : String
  pub min_severity : String
  pub created_at : ℕ

-- The rows in the order of their ids.
pub record AlertSinks : Type 0 where
  pub rows : List AlertSink
  pub next_id : ℕ

unfoldable pub create_alert_sink : ℕ → String → String → String → AlertSinks → ℕ × AlertSinks
create_alert_sink now type url min_severity db = (
  db.next_id,
  record {
    rows =
        db.rows
        ++ record {
          id = db.next_id;
          type = type;
          url = url;
          min_severity = min_severity;
          created_at = now;
        }
          ∷ [];
    next_id = suc db.next_id;
  },
)

unfoldable pub delete_alert_sink : ℕ → AlertSinks → Bool × AlertSinks
delete_alert_sink sink_id db =
    let kept = filter (λ r. not (r.id == sink_id)) db.rows in
    (ltb (length kept) (length db.rows), record db { rows = kept })

pub record AuditRow : Type 0 where
  pub id : ℕ
  pub ts : ℕ
  pub actor : String
  pub role : Option String
  pub method : String
  pub path : String
  pub target : Option String
  pub status : ℕ
  pub detail : Option String
  pub source_ip : Option String

-- The newest first.
pub record AuditLog : Type 0 where
  pub rows : List AuditRow
  pub next_id : ℕ

-- The entry's id is the table's.
unfoldable pub record_audit : AuditRow → AuditLog → AuditLog
record_audit entry db = record {
  rows = record entry { id = db.next_id } ∷ db.rows;
  next_id = suc db.next_id;
}

pub record AuditFilter : Type 0 where
  pub actor : Option String
  pub action : Option String
  pub target : Option String
  pub since : Option ℕ
  pub until : Option ℕ
  pub before : Option ℕ

abbrev pub unless_given : {V : Type 0} → Option V → (V → Bool) → Bool
unless_given none p = true
unless_given (some v) p = p v

-- The conditions that are given, joined by AND. `like` is SQL's LIKE with a pattern around its text.
unfoldable pub passes_filter : (String → String → Bool) → AuditFilter → AuditRow → Bool
passes_filter like f r =
    unless_given f.actor (λ a. str_eq r.actor a)
    && (unless_given f.action (λ a. like a r.path)
        && (unless_given f.target (λ t. elim r.target [ none ↦ false | some u ↦ str_eq u t ])
            && (unless_given f.since (λ t. leb t r.ts)
                && (unless_given f.until (λ t. leb r.ts t)
                    && unless_given f.before (λ b. ltb r.id b)))))

unfoldable pub first_rows : ℕ → List AuditRow → List AuditRow
first_rows zero rows = []
first_rows (suc n) [] = []
first_rows (suc n) (r ∷ rows) = r ∷ first_rows n rows

unfoldable pub list_audit : (String → String → Bool) → AuditFilter → ℕ → AuditLog → List AuditRow
unfolding passes_filter first_rows
list_audit like f limit db =
    first_rows (max 1 (min limit 1000)) (filter (passes_filter like f) db.rows)

unfoldable pub prune_audit : ℕ → AuditLog → ℕ × AuditLog
unfolding first_rows
prune_audit max_rows db =
    let kept = filter (λ r. any (λ k. k.id == r.id) (first_rows max_rows db.rows)) db.rows in
    (length db.rows - length kept, record db { rows = kept })
