-- ===== src/Router/Overlay.antt =====
-- The merge of the dynamic models over the configuration: merge_into of
-- apps/router-server/src/llm_router/overlay.py, which apps/backend/app/services/overlay.py has too. The
-- values that the merge only copies are of any type `J`.
pub mod Ids
pub mod Bodies
pub mod Pointwise
pub mod Override
use llm_router_server_dashbo.Base.{
  ℕ, suc, zero, String, Bool, true, false, Option, none, some, List, [], ◌∷◌, ◌++◌, str_eq,
  if◌then◌else◌, is_some, is_empty, or_default,
}
use llm_router_server_dashbo.Base.Dict.{Dict, lookup, insert}

-- An instance's dictionary: its `id`, if any, and the rest.
pub record RawInstance (J : Type 0) : Type 0 where
  pub id : Option String
  pub body : J

-- A group's dictionary; a missing key is `none`.
pub record RawGroup (J : Type 0) : Type 0 where
  pub model_config : Option (Dict J)
  pub fallback : Option J
  pub autoscale : Option J
  pub instances : Option (List (RawInstance J))

abbrev pub equal_ids : Option String → Option String → Bool
equal_ids none none = true
equal_ids (some a) (some b) = str_eq a b
equal_ids none (some b) = false
equal_ids (some a) none = false

-- d.update(e)
unfoldable pub update {ℓ} : {V : Type ℓ} → Dict V → Dict V → Dict V
update d [] = d
update d ((k, v) ∷ e) = update (insert k v d) e

-- xs[n] = x
unfoldable pub set_at {ℓ} : {A : Type ℓ} → ℕ → A → List A → List A
set_at n x [] = []
set_at zero x (y ∷ ys) = x ∷ ys
set_at (suc n) x (y ∷ ys) = y ∷ set_at n x ys

abbrev pub later_or : Option ℕ → Bool → ℕ → Option ℕ
later_or (some m) here n = some m
later_or none here n = if here then some n else none

module _ {J : Type 0} where
  -- {i.get("id"): n for n, i in enumerate(base_instances)}: of two with one id, the later one counts.
  unfoldable pub idx_by_id : ℕ → List (RawInstance J) → Option String → Option ℕ
  idx_by_id n [] iid = none
  idx_by_id n (i ∷ rest) iid = later_or (idx_by_id (suc n) rest iid) (equal_ids i.id iid) n

  abbrev pub place_instance : Option ℕ → RawInstance J → List (RawInstance J) → List (RawInstance J)
  place_instance (some n) inst base_instances = set_at n inst base_instances
  place_instance none inst base_instances = base_instances ++ (inst ∷ [])

  -- The index is of the instances before the loop.
  unfoldable pub merge_instances :
      (Option String → Option ℕ)
      → List (RawInstance J)
      → List (RawInstance J)
      → List (RawInstance J)
  merge_instances idx base_instances [] = base_instances
  merge_instances idx base_instances (inst ∷ rest) =
      merge_instances idx (place_instance (idx inst.id) inst base_instances) rest

  -- if ov_cfg: base_group.setdefault("model_config", {}).update(ov_cfg)
  abbrev pub merge_model_config : Option (Dict J) → Option (Dict J) → Option (Dict J)
  merge_model_config base none = base
  merge_model_config base (some []) = base
  merge_model_config base (some (kv ∷ rest)) = some (update (or_default base []) (kv ∷ rest))

  abbrev pub replaced : Option J → Option J → Option J
  replaced base none = base
  replaced base (some j) = some j

  unfoldable pub merge_group : RawGroup J → RawGroup J → RawGroup J
  unfolding merge_instances idx_by_id
  merge_group base_group entry =
      let base_instances = or_default base_group.instances [] in
      record {
        model_config = merge_model_config base_group.model_config entry.model_config;
        fallback = replaced base_group.fallback entry.fallback;
        autoscale = replaced base_group.autoscale entry.autoscale;
        instances = some (
            merge_instances (idx_by_id 0 base_instances) base_instances
              (or_default entry.instances []));
      }

  abbrev pub layered : Option (RawGroup J) → RawGroup J → RawGroup J
  layered none entry = entry
  layered (some base_group) entry = merge_group base_group entry

  -- The loop over the overlay's groups.
  unfoldable pub merge_into : Dict (RawGroup J) → Dict (RawGroup J) → Dict (RawGroup J)
  merge_into engines [] = engines
  merge_into engines ((group, entry) ∷ rest) =
      merge_into (insert group (layered (lookup group engines) entry) engines) rest
