-- ===== src/Store/Versions.antt =====
-- The snapshots of the overlay: config_versions of packages/llmops-store/llmops_store.py, and snapshot_overlay of
-- apps/backend/app/core/config_versioning.py. A table is its rows by id, the newest first, which is the
-- order that its queries ask for.
pub mod Current
pub mod Pages
use llm_router_server_dashbo.Base.{
  ℕ, ◌+◌, suc, zero, max, min, String, Bool, true, false, not, ◌&&◌, Option, none, some, List, [],
  ◌∷◌, ◌++◌, filter, any, ltb, ◌==◌, str_eq, if◌then◌else◌, length, ◌-◌, last_or, is_some,
}

pub record Version : Type 0 where
  pub id : ℕ
  pub ts : ℕ
  pub actor : Option String
  pub role : Option String
  pub summary : Option String
  pub sha256 : String
  pub overlay : String

pub record Versions : Type 0 where
  pub rows : List Version
  -- AUTOINCREMENT
  pub next_id : ℕ

abbrev pub latest : List Version → Option Version
latest [] = none
latest (v ∷ rest) = some v

-- SELECT sha256 ... ORDER BY id DESC LIMIT 1
unfoldable pub latest_config_version_hash : Versions → Option String
latest_config_version_hash db = elim (latest db.rows) [ none ↦ none | some v ↦ some v.sha256 ]

abbrev pub is_text : Option String → String → Bool
is_text none s = false
is_text (some t) s = str_eq t s

-- What a snapshot says beside the overlay and its hash.
pub record Origin : Type 0 where
  pub ts : ℕ
  pub actor : Option String
  pub role : Option String
  pub summary : Option String

abbrev pub add_version : Origin → String → String → Versions → Versions
add_version by overlay sha256 db = record {
  rows =
      record {
        id = db.next_id;
        ts = by.ts;
        actor = by.actor;
        role = by.role;
        summary = by.summary;
        sha256 = sha256;
        overlay = overlay;
      }
      ∷ db.rows;
  next_id = suc db.next_id;
}

unfoldable pub record_config_version : Origin → String → String → Versions → Option ℕ × Versions
unfolding latest_config_version_hash
record_config_version by overlay sha256 db =
    if is_text (latest_config_version_hash db) sha256
    then (none, db)
    else (some db.next_id, add_version by overlay sha256 db)

unfoldable pub take : ℕ → List Version → List Version
take zero rows = []
take (suc n) [] = []
take (suc n) (v ∷ rows) = v ∷ take n rows

abbrev pub is_before : Option ℕ → Version → Bool
is_before none v = true
is_before (some before) v = ltb v.id before

-- The rows whose metadata a page shows.
unfoldable pub list_config_versions : Option ℕ → ℕ → Versions → List Version
unfolding take
list_config_versions before limit db =
    take (max 1 (min limit 500)) (filter (is_before before) db.rows)

unfoldable pub find_version : ℕ → List Version → Option Version
find_version id [] = none
find_version id (v ∷ rest) =
    let later = find_version id rest in if v.id == id then some v else later

unfoldable pub get_config_version : ℕ → Versions → Option Version
unfolding find_version
get_config_version id db = find_version id db.rows

-- DELETE ... WHERE id NOT IN (SELECT id ... ORDER BY id DESC LIMIT ?)
unfoldable pub prune_config_versions : ℕ → Versions → ℕ × Versions
unfolding take
prune_config_versions max_rows db =
    let kept = filter (λ v. any (λ k. k.id == v.id) (take max_rows db.rows)) db.rows in
    (length db.rows - length kept, record db { rows = kept })

-- The text of the overlay, which the source parses.
unfoldable pub get_current_overlay : Versions → Option String
get_current_overlay db = elim (latest db.rows) [ none ↦ none | some v ↦ some v.overlay ]

-- The hash of the text is that of the row.
unfoldable pub snapshot_overlay :
    (String → String) → Origin → String → Versions → Option ℕ × Versions
unfolding record_config_version
snapshot_overlay sha256 by blob db = record_config_version by blob (sha256 blob) db
