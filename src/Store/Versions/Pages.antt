-- ===== src/Store/Versions/Pages.antt =====
-- The pages of the version list: GET /config/versions with the last id of a page as the next cursor, as the
-- dashboard asks for them.
use llm_router_server_dashbo.Base.{
  ℕ, ◌-◌, ◌≤◌, ◌<◌, ◌≡◌, refl, sym, ap, ◌∙◌, subst, String, any, ◌==◌, Bool, true, false, Option,
  none, some, List, [], ◌∷◌, ◌++◌, filter, zero, suc, ltb, length, last_or, max, min, arith,
  Bool-cases, inl, inr, All, All-map, mem-filter, Memᴰ, All-filter,
}
use llm_router_server_dashbo.Store.Versions.{
  Version, Versions, take, is_before, list_config_versions, prune_config_versions, snapshot_overlay,
}
use llm_router_server_dashbo.Store.Versions.Current.{
  Act, snapshotted, versions_pruned, perform, perform_all, no_versions, record_config_version-cases,
}

-- The newest first, each id once.
abbrev pub IsDescending : List Version → Type 0
IsDescending [] = Unit
IsDescending (v ∷ rest) = All (λ w. w.id < v.id) rest × IsDescending rest

abbrev pub IsNumbered : Versions → Type 0
IsNumbered db = All (λ v. v.id < db.next_id) db.rows × IsDescending db.rows

filter-IsDescending :
    (p : Version → Bool) (rows : List Version) → IsDescending rows → IsDescending (filter p rows)
filter-IsDescending p [] h = tt
filter-IsDescending p (v ∷ rest) (above, h) = elim (Bool-cases (p v)) [
  | inl kept ↦ rw kept (All-filter (λ w. w.id < v.id) p rest above, filter-IsDescending p rest h)
  | inr gone ↦ rw gone (filter-IsDescending p rest h)
]

-- Every snapshot and every prune leaves the rows in the order of their ids, below the next id.
perform-IsNumbered :
    (sha256 : String → String) (a : Act) (db : Versions)
    → IsNumbered db
    → IsNumbered (perform sha256 a db)
unfolding perform snapshot_overlay prune_config_versions
perform-IsNumbered sha256 (snapshotted by blob) db (below, h) =
    elim (record_config_version-cases by blob (sha256 blob) db) [
      | inl (same, left) ↦ subst (λ r. IsNumbered r.1) (sym left) (below, h)
      | inr new ↦
          subst (λ r. IsNumbered r.1) (sym new)
            ((omega arith, All-map (λ w lt. omega (arith, lt)) db.rows below), (below, h))
    ]
perform-IsNumbered sha256 (versions_pruned max_rows) db (below, h) =
    let kept = λ (v : Version). any (λ k. k.id == v.id) (take max_rows db.rows) in
    (All-filter (λ v. v.id < db.next_id) kept db.rows below, filter-IsDescending kept db.rows h)

-- Every snapshot and every prune leaves the rows in the order of their ids, below the next id.
pub perform_all-IsNumbered :
    (sha256 : String → String) (acts : List Act) (db : Versions)
    → IsNumbered db
    → IsNumbered (perform_all sha256 acts db)
unfolding perform_all
perform_all-IsNumbered sha256 [] db h = h
perform_all-IsNumbered sha256 (a ∷ acts) db h =
    perform_all-IsNumbered sha256 acts (perform sha256 a db) (perform-IsNumbered sha256 a db h)

abbrev cursor : Version → List Version → Option ℕ
cursor v page = some (last_or v page).id

-- Page after page, until one is empty.
unfoldable pub all_pages : ℕ → Option ℕ → ℕ → Versions → List Version
all_pages zero before limit db = []
all_pages (suc fuel) before limit db = elim (list_config_versions before limit db) [
  | [] ↦ []
  | v ∷ page ↦ (v ∷ page) ++ all_pages fuel (cursor v page) limit db
]

abbrev drop : ℕ → List Version → List Version
drop zero rows = rows
drop (suc n) [] = []
drop (suc n) (v ∷ rows) = drop n rows

take-drop : (n : ℕ) (rows : List Version) → take n rows ++ drop n rows ≡ rows
unfolding take
take-drop zero rows = refl
take-drop (suc n) [] = refl
take-drop (suc n) (v ∷ rows) = ap (λ r. v ∷ r) (take-drop n rows)

length-drop-le : (n : ℕ) (rows : List Version) → length (drop n rows) ≤ length rows
length-drop-le zero rows = omega arith
length-drop-le (suc n) [] = omega arith
length-drop-le (suc n) (v ∷ rows) = omega (arith, length-drop-le n rows)

last-take-le :
    (j : ℕ) (v : Version) (rest : List Version)
    → IsDescending (v ∷ rest)
    → (last_or v (take j rest)).id ≤ v.id
unfolding take
last-take-le zero v rest h = omega arith
last-take-le (suc j) v [] h = omega arith
last-take-le (suc j) v (w ∷ rest) (above, h) = omega (arith, above.0, last-take-le j w rest h)

-- No row of those is left out.
filter-of_before :
    (c : ℕ) (rows : List Version)
    → All (λ w. w.id < c) rows
    → filter (is_before (some c)) rows ≡ rows
filter-of_before c [] h = refl
filter-of_before c (w ∷ rows) (below, h) =
    let before : ltb w.id c ≡ true = ground arith in
    rw before (ap (λ r. w ∷ r) (filter-of_before c rows h))

-- What is older than the last row of a page is what the page left.
filter-cursor :
    (j : ℕ) (v : Version) (rest : List Version)
    → IsDescending (v ∷ rest)
    → filter (is_before (cursor v (take j rest))) (v ∷ rest) ≡ drop j rest
unfolding take
filter-cursor zero v rest (above, h) =
    let self : ltb v.id v.id ≡ false = ground arith in rw self (filter-of_before v.id rest above)
filter-cursor (suc j) v [] h = let self : ltb v.id v.id ≡ false = ground arith in rw self refl
filter-cursor (suc j) v (w ∷ rest) ((below, above), h) =
    let c = (last_or w (take j rest)).id in
    let newer : ltb v.id c ≡ false = ground (arith, last-take-le j w rest h) in
    rw newer (filter-cursor j w rest h)

filter-narrow :
    (p q : Version → Bool) (rows : List Version)
    → ((w : Version) → p w ≡ true → q w ≡ true)
    → filter p (filter q rows) ≡ filter p rows
filter-narrow p q [] h = refl
filter-narrow p q (w ∷ rows) h = elim (Bool-cases (q w)) [
  | inl kept ↦ elim (Bool-cases (p w)) [
    | inl e ↦ rw kept (rw e (ap (λ r. w ∷ r) (filter-narrow p q rows h)))
    | inr e ↦ rw kept (rw e (filter-narrow p q rows h))
  ]
  | inr gone ↦ elim (Bool-cases (p w)) [
    | inl e ↦ let wider = h w e in cc
    | inr e ↦ rw gone (rw e (filter-narrow p q rows h))
  ]
]

-- The rows that a cursor leaves, when it stands at the end of a page of them.
filter-page :
    (before : Option ℕ) (j : ℕ) (v : Version) (rest rows : List Version)
    → IsDescending rows
    → filter (is_before before) rows ≡ v ∷ rest
    → filter (is_before (cursor v (take j rest))) rows ≡ drop j rest
filter-page before j v rest rows h left =
    sym (
      filter-narrow (is_before (cursor v (take j rest))) (is_before before) rows
        (narrower before left))
    ∙ ap (filter (is_before (cursor v (take j rest)))) left
    ∙ filter-cursor j v rest descending
  where
    descending : IsDescending (v ∷ rest)
    descending = subst IsDescending left (filter-IsDescending (is_before before) rows h)

    narrower :
        (b : Option ℕ)
        → filter (is_before b) rows ≡ v ∷ rest
        → (w : Version) → is_before (cursor v (take j rest)) w ≡ true
        → is_before b w ≡ true
    narrower none e w lt = refl
    narrower (some b) e w lt =
        let first =
          (mem-filter (is_before (some b)) rows
            (subst (λ r. Memᴰ v r) (sym e) (Memᴰ.head refl))).1 in
        ground (arith, last-take-le j v rest descending, first, lt)

page_size : (limit : ℕ) → (j : ℕ) × (max 1 (min limit 500) ≡ suc j)
page_size limit = (max 1 (min limit 500) - 1, omega arith)

list_config_versions-left :
    (before : Option ℕ) (limit j : ℕ) (left : List Version) (db : Versions)
    → max 1 (min limit 500) ≡ suc j
    → filter (is_before before) db.rows ≡ left
    → list_config_versions before limit db ≡ take (suc j) left
unfolding list_config_versions
list_config_versions-left before limit j left db size e =
    ap (λ k. take k (filter (is_before before) db.rows)) size ∙ ap (take (suc j)) e

abbrev next : ℕ → ℕ → Versions → List Version → List Version
next fuel limit db [] = []
next fuel limit db (v ∷ page) = (v ∷ page) ++ all_pages fuel (cursor v page) limit db

all_pages-next :
    (fuel : ℕ) (before : Option ℕ) (limit : ℕ) (db : Versions)
    → all_pages (suc fuel) before limit db
      ≡ next fuel limit db (list_config_versions before limit db)
unfolding all_pages
all_pages-next fuel before limit db =
    elim (list_config_versions before limit db)
      as (λ page.
        elim page as (λ x. List Version) [
          | [] ↦ []
          | v ∷ rest ↦ (v ∷ rest) ++ all_pages fuel (cursor v rest) limit db
        ]
        ≡ next fuel limit db page) [ [] ↦ refl | v ∷ page ↦ refl ]

all_pages-from :
    (fuel : ℕ) (before : Option ℕ) (limit : ℕ) (left : List Version) (db : Versions)
    → IsDescending db.rows
    → filter (is_before before) db.rows ≡ left
    → length left < fuel
    → all_pages fuel before limit db ≡ left
unfolding take
all_pages-from zero before limit left db h e enough = absurd (omega arith)
all_pages-from (suc fuel) before limit [] db h e enough =
    let (j, size) = page_size limit in
    all_pages-next fuel before limit db
    ∙ ap (next fuel limit db) (list_config_versions-left before limit j [] db size e)
all_pages-from (suc fuel) before limit (v ∷ rest) db h e enough =
    let (j, size) = page_size limit in
    all_pages-next fuel before limit db
    ∙ ap (next fuel limit db) (list_config_versions-left before limit j (v ∷ rest) db size e)
    ∙ ap (λ r. (v ∷ take j rest) ++ r)
        (all_pages-from fuel (cursor v (take j rest)) limit (drop j rest) db h
          (filter-page before j v rest db.rows h e) (omega (arith, length-drop-le j rest, enough)))
    ∙ ap (λ r. v ∷ r) (take-drop j rest)

filter-every : (rows : List Version) → filter (is_before none) rows ≡ rows
filter-every [] = refl
filter-every (v ∷ rows) = ap (λ r. v ∷ r) (filter-every rows)

-- Whatever page size is asked for, zero included, the pages end and show every version that the table
-- holds, each once and the newest first, when a page's last id is the cursor of the next.
pub all_pages_complete :
    (sha256 : String → String) (acts : List Act) (fuel limit : ℕ)
    → length (perform_all sha256 acts no_versions).rows < fuel
    → all_pages fuel none limit (perform_all sha256 acts no_versions)
      ≡ (perform_all sha256 acts no_versions).rows
all_pages_complete sha256 acts fuel limit enough =
    let db = perform_all sha256 acts no_versions in
    all_pages-from fuel none limit db.rows db
      (perform_all-IsNumbered sha256 acts no_versions (tt, tt)).1 (filter-every db.rows) enough
