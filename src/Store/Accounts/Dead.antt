-- ===== src/Store/Accounts/Dead.antt =====
-- The rows of credentials under each statement.
use llm_router_server_dashbo.Base.{
  ℕ, ◌≡◌, refl, sym, ap, ◌∙◌, subst, String, Bool, true, false, not, ◌&&◌, Option, none, some, List,
  [], ◌∷◌, any, ◌==◌, str_eq, eq_iff, if◌then◌else◌, if-intro, arith, Bool-cases, inl, inr,
}
use llm_router_server_dashbo.Store.Accounts.{
  Account, Accounts, update_where, has_hash, is_active, create, find_by_hash, unless_revoked,
  get_active_by_hash, touch, revoke,
}

module _ {A : Type 0} where
  abbrev pub updated_row : (Account A → Bool) → (Account A → Account A) → Account A → Account A
  updated_row p f r = if p r then f r else r

  -- The row of a hash is there, and it is revoked.
  abbrev pub IsDead : String → List (Account A) → Type 0
  IsDead h rows = (r : Account A) × (find_by_hash h rows ≡ some r) × (r.revoked ≡ true)

  -- What an update does to the row of a hash, when it gives the hash to no other.
  find-update_where :
      (h : String) (p : Account A → Bool) (f : Account A → Account A) (rows : List (Account A))
      (r : Account A)
      → ((q : Account A) → has_hash h q ≡ false → has_hash h (updated_row p f q) ≡ false)
      → has_hash h (updated_row p f r) ≡ true
      → find_by_hash h rows ≡ some r
      → find_by_hash h (update_where p f rows) ≡ some (updated_row p f r)
  unfolding find_by_hash
  find-update_where h p f [] r others own found = cc
  find-update_where h p f (q ∷ rows) r others own found = elim (Bool-cases (has_hash h q)) [
    | inl hit ↦
        let e : some q ≡ some r = rw hit at found in
        let same : q ≡ r = ap (λ o. elim o [ none ↦ q | some s ↦ s ]) e in
        let kept = subst (λ s. has_hash h (updated_row p f s) ≡ true) (sym same) own in
        rw kept (ap (λ s. some (updated_row p f s)) same)
    | inr miss ↦
        let below : find_by_hash h rows ≡ some r = rw miss at found in
        rw (others q miss) (find-update_where h p f rows r others own below)
  ]

  create-any :
      (h : String) (rows : List (Account A)) (r : Account A)
      → find_by_hash h rows ≡ some r
      → any (has_hash h) rows ≡ true
  unfolding find_by_hash
  create-any h [] r found = cc
  create-any h (q ∷ rows) r found = elim (Bool-cases (has_hash h q)) [
    | inl hit ↦ rw hit refl
    | inr miss ↦ rw miss (create-any h rows r (rw miss at found))
  ]

  find-has_hash :
      (h : String) (rows : List (Account A)) (r : Account A)
      → find_by_hash h rows ≡ some r
      → has_hash h r ≡ true
  unfolding find_by_hash
  find-has_hash h [] r found = cc
  find-has_hash h (q ∷ rows) r found = elim (Bool-cases (has_hash h q)) [
    | inl hit ↦
        let e : some q ≡ some r = rw hit at found in
        subst (λ o. elim o [ none ↦ true | some s ↦ has_hash h s ] ≡ true) e hit
    | inr miss ↦ find-has_hash h rows r (rw miss at found)
  ]

  pub update_where-IsDead :
      (h : String) (p : Account A → Bool) (f : Account A → Account A) (rows : List (Account A))
      → ((q : Account A) → has_hash h q ≡ false → has_hash h (updated_row p f q) ≡ false)
      → ((q : Account A)
          → q.revoked ≡ true
          → ((updated_row p f q).hash ≡ q.hash) × ((updated_row p f q).revoked ≡ true))
      → IsDead h rows
      → IsDead h (update_where p f rows)
  update_where-IsDead h p f rows others own (r, found, dead) =
      let (hash, revoked) = own r dead in
      let kept : has_hash h (updated_row p f r) ≡ true =
        subst (λ t. str_eq t h ≡ true) (sym hash) (find-has_hash h rows r found) in
      (updated_row p f r, find-update_where h p f rows r others kept found, revoked)

  -- An update that changes no hash and takes no revocation back.
  pub update_where-IsDead_of_kept :
      (h : String) (p : Account A → Bool) (f : Account A → Account A) (rows : List (Account A))
      → ((q : Account A) → (f q).hash ≡ q.hash)
      → ((q : Account A) → q.revoked ≡ true → (f q).revoked ≡ true)
      → IsDead h rows
      → IsDead h (update_where p f rows)
  update_where-IsDead_of_kept h p f rows hash revoked d =
      update_where-IsDead h p f rows (λ q miss. subst (λ t. str_eq t h ≡ false) (sym (same q)) miss)
        (λ q dead. (
          same q,
          if-intro (λ r. r.revoked ≡ true) (p q) (f q) q (λ hit. revoked q dead) (λ miss. dead),
        ))
        d
    where
      same : (q : Account A) → (updated_row p f q).hash ≡ q.hash
      same q = if-intro (λ r. r.hash ≡ q.hash) (p q) (f q) q (λ hit. hash q) (λ miss. refl)

  abbrev pub after_create : Option (ℕ × Accounts A) → Accounts A → Accounts A
  after_create none db = db
  after_create (some (id, next)) db = next

  pub create-IsDead :
      (now : ℕ) (hash prefix : String) (extra : A) (h : String) (db : Accounts A)
      → IsDead h db.rows
      → IsDead h (after_create (create now hash prefix extra db) db).rows
  unfolding create find_by_hash
  create-IsDead now hash prefix extra h db (r, found, dead) =
      elim (Bool-cases (any (has_hash hash) db.rows)) [
        | inl taken ↦ rw (taken, create) (r, found, dead)
        | inr fresh ↦ elim (Bool-cases (str_eq hash h)) [
          | inl same ↦
              let held = create-any h db.rows r found in
              let no : any (has_hash hash) db.rows ≡ true =
                subst (λ t. any (has_hash t) db.rows ≡ true) (sym ((eq_iff hash h).0 same)) held in
              cc
          | inr other ↦ rw (fresh, create) (r, rw other found, dead)
        ]
      ]

  pub touch-IsDead :
      (now id : ℕ) (h : String) (db : Accounts A)
      → IsDead h db.rows
      → IsDead h (touch now id db).rows
  unfolding touch
  touch-IsDead now id h db d =
      update_where-IsDead_of_kept h (λ r. r.id == id) (λ r. record r { last_used_at = some now })
        db.rows (λ q. refl) (λ q dead. dead) d

  pub revoke-IsDead :
      (id : ℕ) (h : String) (db : Accounts A) → IsDead h db.rows → IsDead h (revoke id db).1.rows
  unfolding revoke
  revoke-IsDead id h db d =
      update_where-IsDead_of_kept h (is_active id) (λ r. record r { revoked = true }) db.rows
        (λ q. refl) (λ q dead. refl) d

  pub get_active-IsDead :
      (h : String) (db : Accounts A) → IsDead h db.rows → get_active_by_hash h db ≡ none
  unfolding get_active_by_hash
  get_active-IsDead h db (r, found, dead) = ap unless_revoked found ∙ (rw dead refl)

  unless_revoked-some :
      (o : Option (Account A)) (r : Account A)
      → unless_revoked o ≡ some r
      → (o ≡ some r) × (r.revoked ≡ false)
  unless_revoked-some none r e = cc
  unless_revoked-some (some q) r e = elim (Bool-cases q.revoked) [
    | inl dead ↦
        let no : none ≡ some r = (sym (ap (λ b. if b then none else some q) dead)) ∙ e in cc
    | inr alive ↦
        let same : some q ≡ some r = (sym (ap (λ b. if b then none else some q) alive)) ∙ e in
        (same, subst (λ o. elim o [ none ↦ false | some s ↦ s.revoked ] ≡ false) same alive)
  ]

  -- The row that a token had when it was accepted is revoked.
  pub revoke-makes_IsDead :
      (h : String) (r : Account A) (db : Accounts A)
      → get_active_by_hash h db ≡ some r
      → IsDead h (revoke r.id db).1.rows
  unfolding revoke get_active_by_hash
  revoke-makes_IsDead h r db accepted =
      let (found, alive) = unless_revoked-some (find_by_hash h db.rows) r accepted in
      let self : (r.id == r.id) ≡ true = ground arith in
      let hit : is_active r.id r ≡ true = ap (λ b. b && not r.revoked) self ∙ ap not alive in
      let f = λ (q : Account A). record q { revoked = true } in
      let hash = λ (q : Account A).
        if-intro (λ s. s.hash ≡ q.hash) (is_active r.id q) (f q) q (λ e. refl) (λ e. refl) in
      (
        updated_row (is_active r.id) f r,
        find-update_where h (is_active r.id) f db.rows r
            (λ q miss. subst (λ t. str_eq t h ≡ false) (sym (hash q)) miss)
            (subst (λ t. str_eq t h ≡ true) (sym (hash r)) (find-has_hash h db.rows r found)) found,
        ap (λ b. (if b then f r else r).revoked) hit,
      )

pub left-of_and : (a b : Bool) → (a && b) ≡ false → b ≡ true → a ≡ false
left-of_and a b h k = ground arith

module _ {A : Type 0} where
  pub inactive : (id : ℕ) (q : Account A) → q.revoked ≡ true → is_active id q ≡ false
  inactive id q dead = ground (arith, dead)

  pub update_where-none :
      (p : Account A → Bool) (f : Account A → Account A) (rows : List (Account A))
      → any p rows ≡ false
      → update_where p f rows ≡ rows
  update_where-none p f [] h = refl
  update_where-none p f (r ∷ rows) h = elim (Bool-cases (p r)) [
    | inl hit ↦ let no : true ≡ false = rw hit at h in cc
    | inr miss ↦ rw miss (ap (λ rs. r ∷ rs) (update_where-none p f rows (rw miss at h)))
  ]

  -- A hash of a revoked row is taken.
  pub clash-of_dead :
      (h : String) (id : ℕ) (rows : List (Account A))
      → IsDead h rows
      → any (λ q. has_hash h q && not (is_active id q)) rows ≡ true
  unfolding find_by_hash
  clash-of_dead h id [] (r, found, dead) = cc
  clash-of_dead h id (q ∷ rows) (r, found, dead) = elim (Bool-cases (has_hash h q)) [
    | inl hit ↦
        let e : some q ≡ some r = rw hit at found in
        let here : q.revoked ≡ true =
          ap (λ o. elim o [ none ↦ true | some s ↦ s.revoked ]) e ∙ dead in
        rw hit (rw (inactive id q here) refl)
    | inr miss ↦ rw miss (clash-of_dead h id rows (r, rw miss at found, dead))
  ]
