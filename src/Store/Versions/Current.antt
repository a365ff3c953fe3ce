-- ===== src/Store/Versions/Current.antt =====
-- The overlay that a controller reads back, against the history of snapshots and prunes.
use llm_router_server_dashbo.Base.{
  ℕ, ◌≤◌, ◌≡◌, refl, sym, ap, ◌∙◌, subst, ◌⊎◌, String, true, Option, none, some, List, [], ◌∷◌, any,
  filter, zero, suc, ◌==◌, eq_iff, arith, Bool-cases, inl, inr, All, All-filter,
}
use llm_router_server_dashbo.Store.Versions.{
  Version, Versions, Origin, latest, latest_config_version_hash, is_text, add_version,
  record_config_version, take, prune_config_versions, get_current_overlay, snapshot_overlay,
}

-- What happens to the table over the life of the controllers.
pub data Act : Type 0 where
  snapshotted : Origin → String → Act
  versions_pruned : ℕ → Act

unfoldable pub perform : (String → String) → Act → Versions → Versions
unfolding snapshot_overlay prune_config_versions
perform sha256 (snapshotted by blob) db = (snapshot_overlay sha256 by blob db).1
perform sha256 (versions_pruned max_rows) db = (prune_config_versions max_rows db).1

unfoldable pub perform_all : (String → String) → List Act → Versions → Versions
perform_all sha256 [] db = db
perform_all sha256 (a ∷ acts) db = perform_all sha256 acts (perform sha256 a db)

abbrev pub no_versions : Versions
no_versions = record { rows = []; next_id = 1 }

-- The text of the last snapshot.
abbrev pub last_blob : Option String → List Act → Option String
last_blob current [] = current
last_blob current (snapshotted by blob ∷ acts) = last_blob (some blob) acts
last_blob current (versions_pruned max_rows ∷ acts) = last_blob current acts

-- Every prune keeps a row.
abbrev pub KeepsRows : List Act → Type 0
KeepsRows [] = Unit
KeepsRows (snapshotted by blob ∷ acts) = KeepsRows acts
KeepsRows (versions_pruned max_rows ∷ acts) = (1 ≤ max_rows) × KeepsRows acts

abbrev pub IsHashed : (String → String) → List Version → Type 0
IsHashed sha256 rows = All (λ v. v.sha256 ≡ sha256 v.overlay) rows

-- The newest row survives a prune that keeps any.
latest-prune :
    (n : ℕ) (rows : List Version)
    → latest (filter (λ v. any (λ k. k.id == v.id) (take (suc n) rows)) rows) ≡ latest rows
unfolding take
latest-prune n [] = refl
latest-prune n (v ∷ rest) = let same : (v.id == v.id) ≡ true = ground arith in rw same refl

latest-prune_config_versions :
    (max_rows : ℕ) (db : Versions)
    → 1 ≤ max_rows
    → latest (prune_config_versions max_rows db).1.rows ≡ latest db.rows
unfolding prune_config_versions
latest-prune_config_versions zero db h = absurd (omega arith)
latest-prune_config_versions (suc n) db h = latest-prune n db.rows

get_current_overlay-prune :
    (max_rows : ℕ) (db : Versions)
    → 1 ≤ max_rows
    → get_current_overlay (prune_config_versions max_rows db).1 ≡ get_current_overlay db
unfolding get_current_overlay
get_current_overlay-prune max_rows db h =
    ap (λ o. elim o [ none ↦ none | some v ↦ some v.overlay ])
      (latest-prune_config_versions max_rows db h)

pub record_config_version-cases :
    (by : Origin) (overlay hash : String) (db : Versions)
    → (is_text (latest_config_version_hash db) hash ≡ true)
        × (record_config_version by overlay hash db ≡ (none, db))
      ⊎ (record_config_version by overlay hash db
          ≡ (some db.next_id, add_version by overlay hash db))
unfolding record_config_version
record_config_version-cases by overlay hash db =
    elim (Bool-cases (is_text (latest_config_version_hash db) hash)) [
      | inl same ↦ inl (same, rw same refl)
      | inr new ↦ inr (rw new refl)
    ]

module _ (sha256 : String → String) where
  perform-IsHashed :
      (a : Act) (db : Versions)
      → IsHashed sha256 db.rows
      → IsHashed sha256 (perform sha256 a db).rows
  unfolding perform snapshot_overlay prune_config_versions
  perform-IsHashed (snapshotted by blob) db h =
      elim (record_config_version-cases by blob (sha256 blob) db) [
        | inl (same, left) ↦ subst (λ r. IsHashed sha256 r.1.rows) (sym left) h
        | inr new ↦ subst (λ r. IsHashed sha256 r.1.rows) (sym new) (refl, h)
      ]
  perform-IsHashed (versions_pruned max_rows) db h =
      All-filter (λ v. v.sha256 ≡ sha256 v.overlay)
        (λ v. any (λ k. k.id == v.id) (take max_rows db.rows)) db.rows h

  module _ (injective : (s t : String) → sha256 s ≡ sha256 t → s ≡ t) where
    overlay-of_hash :
        (blob : String) (rows : List Version)
        → IsHashed sha256 rows
        → is_text (elim (latest rows) [ none ↦ none | some v ↦ some v.sha256 ]) (sha256 blob) ≡ true
        → elim (latest rows) [ none ↦ none | some v ↦ some v.overlay ] ≡ some blob
    overlay-of_hash blob [] h same = cc
    overlay-of_hash blob (v ∷ rest) (hashed, h) same =
        ap some (injective v.overlay blob (sym hashed ∙ (eq_iff v.sha256 (sha256 blob)).0 same))

    get_current_overlay-of_hash :
        (blob : String) (db : Versions)
        → IsHashed sha256 db.rows
        → is_text (latest_config_version_hash db) (sha256 blob) ≡ true
        → get_current_overlay db ≡ some blob
    unfolding get_current_overlay latest_config_version_hash
    get_current_overlay-of_hash blob db h same = overlay-of_hash blob db.rows h same

    -- A text that is not recorded is the one that is there.
    get_current_overlay-snapshot :
        (by : Origin) (blob : String) (db : Versions)
        → IsHashed sha256 db.rows
        → get_current_overlay (snapshot_overlay sha256 by blob db).1 ≡ some blob
    unfolding get_current_overlay snapshot_overlay
    get_current_overlay-snapshot by blob db h =
        elim (record_config_version-cases by blob (sha256 blob) db) [
          | inl (same, left) ↦
              ap (λ r. get_current_overlay r.1) left ∙ get_current_overlay-of_hash blob db h same
          | inr new ↦ ap (λ r. get_current_overlay r.1) new
        ]

    -- However the snapshots and prunes of all controllers interleave, the overlay that a fresh controller reads
    -- is the last one snapshotted, given a hash without collisions and prunes that keep a row: a snapshot is
    -- left out only where its text is the current one, and no prune takes the current one away.
    pub get_current_overlay-perform_all :
        (acts : List Act) (db : Versions)
        → KeepsRows acts
        → IsHashed sha256 db.rows
        → get_current_overlay (perform_all sha256 acts db) ≡ last_blob (get_current_overlay db) acts
    unfolding perform_all perform
    get_current_overlay-perform_all [] db keeps h = refl
    get_current_overlay-perform_all (snapshotted by blob ∷ acts) db keeps h =
        get_current_overlay-perform_all acts (snapshot_overlay sha256 by blob db).1 keeps
          (perform-IsHashed (snapshotted by blob) db h)
        ∙ ap (λ o. last_blob o acts) (get_current_overlay-snapshot by blob db h)
    get_current_overlay-perform_all (versions_pruned max_rows ∷ acts) db (one, keeps) h =
        get_current_overlay-perform_all acts (prune_config_versions max_rows db).1 keeps
          (perform-IsHashed (versions_pruned max_rows) db h)
        ∙ ap (λ o. last_blob o acts) (get_current_overlay-prune max_rows db one)
