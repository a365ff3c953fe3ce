-- ===== src/Store/Accounts/Revoked.antt =====
-- A revoked token in the table of the operators.
use llm_router_server_dashbo.Base.{
  ℕ, ◌≡◌, refl, sym, ap, ◌∙◌, subst, String, Bool, true, false, not, ◌&&◌, Option, none, some, List,
  [], ◌∷◌, any, str_eq, eq_iff, if◌then◌else◌, if-intro, Bool-cases, inl, inr,
}
use llm_router_server_dashbo.Store.Accounts.{
  Account, Accounts, has_hash, is_active, revoke, OperatorColumns, create_operator,
  get_active_operator_by_hash, touch_operator, revoke_operator, set_operator_role,
  rotate_operator_token,
}
use llm_router_server_dashbo.Store.Accounts.Dead.{
  IsDead, update_where-IsDead, update_where-IsDead_of_kept, create-IsDead, touch-IsDead,
  revoke-IsDead, get_active-IsDead, revoke-makes_IsDead, after_create, left-of_and, inactive,
  update_where-none, clash-of_dead,
}

-- The statements on the operators, each with the clock where it is read.
pub data OperatorStatement : Type 0 where
  operator_created : ℕ → OperatorColumns → String → String → OperatorStatement
  operator_touched : ℕ → ℕ → OperatorStatement
  operator_revoked : ℕ → OperatorStatement
  role_set : ℕ → String → OperatorStatement
  token_rotated : ℕ → String → String → OperatorStatement

abbrev pub after_rotate :
    Option (Bool × Accounts OperatorColumns) → Accounts OperatorColumns → Accounts OperatorColumns
after_rotate none db = db
after_rotate (some (hit, next)) db = next

-- A statement that raises changes nothing.
unfoldable pub on_operators :
    OperatorStatement → Accounts OperatorColumns → Accounts OperatorColumns
unfolding create_operator touch_operator revoke_operator set_operator_role rotate_operator_token
on_operators (operator_created now columns hash prefix) db =
    after_create (create_operator now columns hash prefix db) db
on_operators (operator_touched now id) db = touch_operator now id db
on_operators (operator_revoked id) db = (revoke_operator id db).1
on_operators (role_set id role) db = (set_operator_role id role db).1
on_operators (token_rotated id hash prefix) db =
    after_rotate (rotate_operator_token id hash prefix db) db

unfoldable pub on_operators_all :
    List OperatorStatement → Accounts OperatorColumns → Accounts OperatorColumns
on_operators_all [] db = db
on_operators_all (s ∷ ss) db = on_operators_all ss (on_operators s db)

rotate-IsDead :
    (id : ℕ) (hash prefix h : String) (db : Accounts OperatorColumns)
    → IsDead h db.rows
    → IsDead h (after_rotate (rotate_operator_token id hash prefix db) db).rows
unfolding rotate_operator_token
rotate-IsDead id hash prefix h db d =
    let active : Account OperatorColumns → Bool = is_active id in
    let f = λ (q : Account OperatorColumns). record q {
      hash = hash;
      prefix = prefix;
      last_used_at = none;
    } in
    let clash = λ (t : String). any (λ q. has_hash t q && not (active q)) db.rows in
    elim (Bool-cases (any active db.rows && clash hash)) [
      | inl taken ↦ rw (taken, rotate_operator_token) d
      | inr apart ↦
          rw (apart, rotate_operator_token)
            (elim (Bool-cases (str_eq hash h)) [
              | inl same ↦
                  let held : clash hash ≡ true =
                    ap clash ((eq_iff hash h).0 same) ∙ clash-of_dead h id db.rows d in
                  let idle : any active db.rows ≡ false =
                    left-of_and (any active db.rows) (clash hash) apart held in
                  subst (IsDead h) (sym (update_where-none active f db.rows idle)) d
              | inr other ↦
                  update_where-IsDead h active f db.rows
                    (λ q miss.
                      if-intro (λ s. has_hash h s ≡ false) (active q) (f q) q (λ hit. other)
                        (λ e. miss))
                    (λ q dead.
                      let off = inactive id q dead in
                      (
                        ap (λ b. (if b then f q else q).hash) off,
                        ap (λ b. (if b then f q else q).revoked) off ∙ dead,
                      ))
                    d
            ])
    ]

on_operators-IsDead :
    (s : OperatorStatement) (h : String) (db : Accounts OperatorColumns)
    → IsDead h db.rows
    → IsDead h (on_operators s db).rows
unfolding on_operators create_operator touch_operator revoke_operator set_operator_role
on_operators-IsDead (operator_created now columns hash prefix) h db d =
    create-IsDead now hash prefix columns h db d
on_operators-IsDead (operator_touched now id) h db d = touch-IsDead now id h db d
on_operators-IsDead (operator_revoked id) h db d = revoke-IsDead id h db d
on_operators-IsDead (role_set id role) h db d =
    update_where-IsDead_of_kept h (is_active id)
      (λ r. record r { extra = record r.extra { role = role } }) db.rows (λ q. refl)
      (λ q dead. dead) d
on_operators-IsDead (token_rotated id hash prefix) h db d = rotate-IsDead id hash prefix h db d

on_operators_all-IsDead :
    (ss : List OperatorStatement) (h : String) (db : Accounts OperatorColumns)
    → IsDead h db.rows
    → IsDead h (on_operators_all ss db).rows
unfolding on_operators_all
on_operators_all-IsDead [] h db d = d
on_operators_all-IsDead (s ∷ ss) h db d =
    on_operators_all-IsDead ss h (on_operators s db) (on_operators-IsDead s h db d)

-- Once the operator that a token let in is revoked, the token lets nobody in again, whatever is created, rotated
-- or changed afterwards: its hash stays with the revoked row, no other row can take it, and nothing takes a
-- revocation back.
pub get_active_operator-revoke :
    (h : String) (r : Account OperatorColumns) (ss : List OperatorStatement)
    (db : Accounts OperatorColumns)
    → get_active_operator_by_hash h db ≡ some r
    → get_active_operator_by_hash h (on_operators_all ss (revoke_operator r.id db).1) ≡ none
unfolding get_active_operator_by_hash revoke_operator
get_active_operator-revoke h r ss db accepted =
    get_active-IsDead h (on_operators_all ss (revoke r.id db).1)
      (on_operators_all-IsDead ss h (revoke r.id db).1 (revoke-makes_IsDead h r db accepted))
