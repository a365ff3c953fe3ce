-- ===== src/Router/Overlay/Pointwise.antt =====
-- What a group of the merged configuration is.
use llm_router_server_dashbo.Base.{
  ◌≡◌, refl, sym, ◌∙◌, ap, String, Option, none, some, [], ◌∷◌, str_eq, eq_iff, Bool-cases, inl,
  inr,
}
use llm_router_server_dashbo.Base.Dict.{Dict, lookup, insert, lookup-insert, HasDistinctKeys}
use llm_router_server_dashbo.Router.Overlay.{RawGroup, layered, merge_into}

module _ {J : Type 0} where
  -- The overlay's group over the base's.
  abbrev pub combined : Option (RawGroup J) → Option (RawGroup J) → Option (RawGroup J)
  combined base none = base
  combined base (some entry) = some (layered base entry)

  -- Each group of the merged configuration depends on the base's and the overlay's entry for that group
  -- alone: a group that the overlay lacks is the base's, a group that the base lacks is the overlay's,
  -- and a group that both have is the two merged, whatever the order of the overlay's groups.
  pub lookup-merge_into :
      (j : String) (engines overlay : Dict (RawGroup J))
      → HasDistinctKeys overlay
      → lookup j (merge_into engines overlay) ≡ combined (lookup j engines) (lookup j overlay)
  unfolding merge_into lookup
  lookup-merge_into j engines [] h = refl
  lookup-merge_into j engines ((g, entry) ∷ rest) (fresh, h) = elim (Bool-cases (str_eq g j)) [
    | inl same ↦
        let e : g ≡ j = (eq_iff g j).0 same in
        let rest_none : lookup j rest ≡ none = ap (λ k. lookup k rest) (sym e) ∙ fresh in
        rw same (
          lookup-merge_into j (insert g (layered (lookup g engines) entry) engines) rest h
          ∙ rw rest_none (
              lookup-insert g j _ engines
              ∙ rw same (ap (λ k. some (layered (lookup k engines) entry)) e)))
    | inr other ↦ rw other (
        lookup-merge_into j (insert g (layered (lookup g engines) entry) engines) rest h
        ∙ ap (λ b. combined b (lookup j rest)) (lookup-insert g j _ engines ∙ rw other refl))
  ]
