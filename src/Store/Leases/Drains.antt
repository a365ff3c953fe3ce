-- ===== src/Store/Leases/Drains.antt =====
-- The drain marks on the way from the store to the routers.
use llm_router_server_dashbo.Base.{
  ℕ, ◌≤◌, ◌≡◌, refl, ap, ◌∙◌, String, Bool, false, not, Option, none, some, is_some, List, [], ◌∷◌,
  leb, str_eq, arith, Bool-cases, Option-cases, inl, inr,
}
use llm_router_server_dashbo.Base.Dict.{lookup, passing}
use llm_router_server_dashbo.Router.State.{App, make_backend_key, is_draining}
use llm_router_server_dashbo.Store.Leases.{Row, Table, Leases, expiries, list_rows, list_draining}
use llm_router_server_dashbo.Store.Leases.History.{
  Statement, execute_all, granted, PrunedBy, live, lookup-list_rows,
}

-- app.state.draining = await store.list_draining(), in a round of the poller
unfoldable pub refresh_draining : ℕ → Leases → App → App
unfolding list_draining
refresh_draining now db app = record app { draining = list_draining now db }

abbrev expiry : {V : Type 0} → Option (Row V) → Option ℕ
expiry none = none
expiry (some r) = some r.expires_at

lookup-expiries :
    {V : Type 0} (k : String) (table : Table V)
    → lookup k (expiries table) ≡ expiry (lookup k table)
unfolding lookup
lookup-expiries k [] = refl
lookup-expiries k ((j, r) ∷ rest) = elim (Bool-cases (str_eq j k)) [
  | inl e ↦ rw e refl
  | inr e ↦ rw e (lookup-expiries k rest)
]

abbrev drained_until : ℕ → Option ℕ → Bool
drained_until now none = false
drained_until now (some expires) = not (leb expires now)

is_draining-lookup :
    (now : ℕ) (app : App) (m i : String)
    → (is_draining now app m i).0 ≡ drained_until now (lookup (make_backend_key m i) app.draining)
unfolding is_draining
is_draining-lookup now app m i = elim (Option-cases (lookup (make_backend_key m i) app.draining)) [
  | inl absent ↦ rw (absent, is_draining) refl
  | inr (expires, found) ↦
      rw (found, is_draining)
        (elim (Bool-cases (leb expires now)) [
          | inl past ↦ rw past refl
          | inr later ↦ rw later refl
        ])
]

drained_until-live :
    (seen t : ℕ) (row : Option (Row (Unit {0})))
    → seen ≤ t
    → drained_until t (expiry (passing (live seen) row)) ≡ is_some (passing (live t) row)
drained_until-live seen t none h = refl
drained_until-live seen t (some r) h = ground arith

-- A router drains an instance, from its refresh on, exactly as long as the last mark in the store says,
-- whichever replica wrote or cleared the mark: the store keeps the mark's lifetime, and neither the
-- refresh nor the table's filter shortens or extends it.
pub is_draining-refresh :
    (seen t : ℕ) (m i : String) (ss : List (Statement (Unit {0}))) (db : Leases) (app : App)
    → db.draining ≡ execute_all ss []
    → PrunedBy seen ss
    → seen ≤ t
    → (is_draining t (refresh_draining seen db app) m i).0
      ≡ is_some (passing (live t) (granted (make_backend_key m i) none ss))
unfolding refresh_draining
is_draining-refresh seen t m i ss db app history past h =
    let key = make_backend_key m i in
    is_draining-lookup t (refresh_draining seen db app) m i
    ∙ ap (drained_until t) (
        lookup-expiries key (list_rows seen db.draining)
        ∙ ap (λ table. expiry (lookup key (list_rows seen table))) history
        ∙ ap expiry (lookup-list_rows seen key ss past))
    ∙ drained_until-live seen t (granted key none ss) h
