-- ===== src/Store/Accounts.antt =====
-- The credentials of packages/llmops-store/llmops_store.py: the tables api_keys and operators, which share their columns for
-- the hash of a token, its use and its revocation. A table is its rows, the newest first.
pub mod Dead
pub mod Revoked
use llm_router_server_dashbo.Base.{
  ℕ, suc, String, Bool, true, false, not, ◌&&◌, Option, none, some, List, [], ◌∷◌, any, filter,
  length, ltb, ◌==◌, str_eq, if◌then◌else◌,
}

pub record Account (A : Type 0) : Type 0 where
  pub id : ℕ
  pub hash : String
  pub prefix : String
  pub created_at : ℕ
  pub last_used_at : Option ℕ
  pub revoked : Bool
  -- The columns that only one of the tables has.
  pub extra : A

pub record Accounts (A : Type 0) : Type 0 where
  pub rows : List (Account A)
  -- AUTOINCREMENT
  pub next_id : ℕ

module _ {A : Type 0} where
  -- UPDATE ... WHERE ...
  abbrev pub update_where :
      (Account A → Bool) → (Account A → Account A) → List (Account A) → List (Account A)
  update_where p f [] = []
  update_where p f (r ∷ rows) = (if p r then f r else r) ∷ update_where p f rows

  -- cur.rowcount > 0
  abbrev pub updated : (Account A → Bool) → (Account A → Account A) → Accounts A → Bool × Accounts A
  updated p f db = (any p db.rows, record db { rows = update_where p f db.rows })

  abbrev pub has_hash : String → Account A → Bool
  has_hash h r = str_eq r.hash h

  -- id = ? AND revoked = 0
  abbrev pub is_active : ℕ → Account A → Bool
  is_active id r = r.id == id && not r.revoked

  -- The new row; `none` is a hash that is not UNIQUE.
  unfoldable pub create : ℕ → String → String → A → Accounts A → Option (ℕ × Accounts A)
  create now hash prefix extra db =
      if any (has_hash hash) db.rows
      then none
      else some (
        db.next_id,
        record {
          rows =
              record {
                id = db.next_id;
                hash = hash;
                prefix = prefix;
                created_at = now;
                last_used_at = none;
                revoked = false;
                extra = extra;
              }
              ∷ db.rows;
          next_id = suc db.next_id;
        },
      )

  unfoldable pub find_by_hash : String → List (Account A) → Option (Account A)
  find_by_hash h [] = none
  find_by_hash h (r ∷ rows) = if has_hash h r then some r else find_by_hash h rows

  -- if row is None or row["revoked"]: return None
  abbrev pub unless_revoked : Option (Account A) → Option (Account A)
  unless_revoked none = none
  unless_revoked (some r) = if r.revoked then none else some r

  unfoldable pub get_active_by_hash : String → Accounts A → Option (Account A)
  unfolding find_by_hash
  get_active_by_hash h db = unless_revoked (find_by_hash h db.rows)

  unfoldable pub touch : ℕ → ℕ → Accounts A → Accounts A
  touch now id db = record db {
    rows = update_where (λ r. r.id == id) (λ r. record r { last_used_at = some now }) db.rows;
  }

  unfoldable pub revoke : ℕ → Accounts A → Bool × Accounts A
  revoke id db = updated (is_active id) (λ r. record r { revoked = true }) db

-- The columns of api_keys.
pub record KeyColumns : Type 0 where
  pub name : String
  pub rpm_limit : Option ℕ
  pub token_quota : Option ℕ
  pub quota_period : Option String

unfoldable pub create_api_key :
    ℕ → KeyColumns → String → String → Accounts KeyColumns → Option (ℕ × Accounts KeyColumns)
unfolding create
create_api_key now columns key_hash prefix db = create now key_hash prefix columns db

unfoldable pub get_active_api_key_by_hash :
    String → Accounts KeyColumns → Option (Account KeyColumns)
unfolding get_active_by_hash
get_active_api_key_by_hash key_hash db = get_active_by_hash key_hash db

unfoldable pub revoke_api_key : ℕ → Accounts KeyColumns → Bool × Accounts KeyColumns
unfolding revoke
revoke_api_key key_id db = revoke key_id db

unfoldable pub touch_api_key : ℕ → ℕ → Accounts KeyColumns → Accounts KeyColumns
unfolding touch
touch_api_key now key_id db = touch now key_id db

-- The columns of operators.
pub record OperatorColumns : Type 0 where
  pub label : String
  pub role : String

unfoldable pub create_operator :
    ℕ
    → OperatorColumns
    → String
    → String
    → Accounts OperatorColumns
    → Option (ℕ × Accounts OperatorColumns)
unfolding create
create_operator now columns token_hash prefix db = create now token_hash prefix columns db

unfoldable pub count_active_operators : Accounts OperatorColumns → ℕ
count_active_operators db = length (filter (λ r. not r.revoked) db.rows)

unfoldable pub get_active_operator_by_hash :
    String → Accounts OperatorColumns → Option (Account OperatorColumns)
unfolding get_active_by_hash
get_active_operator_by_hash token_hash db = get_active_by_hash token_hash db

unfoldable pub touch_operator : ℕ → ℕ → Accounts OperatorColumns → Accounts OperatorColumns
unfolding touch
touch_operator now operator_id db = touch now operator_id db

unfoldable pub revoke_operator : ℕ → Accounts OperatorColumns → Bool × Accounts OperatorColumns
unfolding revoke
revoke_operator operator_id db = revoke operator_id db

unfoldable pub set_operator_role :
    ℕ → String → Accounts OperatorColumns → Bool × Accounts OperatorColumns
set_operator_role operator_id role db =
    updated (is_active operator_id) (λ r. record r { extra = record r.extra { role = role } }) db

-- `none` is a hash that is not UNIQUE after the update.
unfoldable pub rotate_operator_token :
    ℕ → String → String → Accounts OperatorColumns → Option (Bool × Accounts OperatorColumns)
rotate_operator_token operator_id token_hash prefix db =
    if any (is_active operator_id) db.rows
      && any (λ r. has_hash token_hash r && not (is_active operator_id r)) db.rows
    then none
    else some (
        updated (is_active operator_id)
          (λ r. record r { hash = token_hash; prefix = prefix; last_used_at = none }) db)
