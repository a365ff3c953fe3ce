-- ===== src/Fleet/Notifier/Cooldown.antt =====
-- How far apart the alerts of one model and event are.
use llm_router_server_dashbo.Base.{
  ℕ, ◌+◌, ◌≤◌, ◌≡◌, refl, sym, ap, ◌∙◌, eq_iff, and_parts, String, Bool, true, false, not, ◌&&◌,
  ◌⊎◌, inl, inr, Option, none, some, List, [], ◌∷◌, is_empty, ltb→ge, leb, arith, str_eq,
  if◌then◌else◌, Bool-cases,
}
use llm_router_server_dashbo.Fleet.Notifier.{
  AlertEvent, Sink, Notifier, is_recent, mark_sent, suppressed, eligible, notify,
}

-- An alert is dropped and leaves no mark, or it is wanted and not recent, and is marked.
pub notify-cases :
    (now : ℕ) (ev : AlertEvent) (n : Notifier)
    → (notify now ev n ≡ ([], n))
      ⊎ ((is_empty (eligible ev n.sinks) ≡ false)
          × (is_recent n.cooldown_s now (n.last_sent ev.model ev.event) ≡ false)
          × (notify now ev n ≡ (eligible ev n.sinks, mark_sent now ev n)))
unfolding notify suppressed
notify-cases now ev n = elim (Bool-cases (is_empty (eligible ev n.sinks))) [
  | inl none_wants ↦ inl (rw none_wants refl)
  | inr wanted ↦ elim (Bool-cases (is_recent n.cooldown_s now (n.last_sent ev.model ev.event))) [
    | inl recent ↦ inl (rw wanted (rw recent refl))
    | inr due ↦ inr (wanted, due, rw wanted (rw due refl))
  ]
]

abbrev pub is_about : String → String → AlertEvent → Bool
is_about model event ev = str_eq model ev.model && str_eq event ev.event

-- When an alert of this model and event went out to a sink, over a run of alerts.
unfoldable pub sent_times : String → String → List (ℕ × AlertEvent) → Notifier → List ℕ
sent_times model event [] n = []
sent_times model event ((now, ev) ∷ rest) n =
    let (chosen, n') = notify now ev n in
    let later = sent_times model event rest n' in
    if not (is_empty chosen) && is_about model event ev then now ∷ later else later

abbrev pub Apart : ℕ → Option ℕ → List ℕ → Type 0
Apart gap last [] = Unit
Apart gap none (t ∷ ts) = Apart gap (some t) ts
Apart gap (some last) (t ∷ ts) = (last + gap ≤ t) × Apart gap (some t) ts

Apart-cons :
    (gap now : ℕ) (last : Option ℕ) (ts : List ℕ)
    → is_recent gap now last ≡ false
    → Apart gap (some now) ts
    → Apart gap last (now ∷ ts)
Apart-cons gap now none ts due h = h
Apart-cons gap now (some last) ts due h = (ltb→ge now (last + gap) due, h)

same_slot :
    (model event : String) (ev : AlertEvent) (slots : String → String → Option ℕ)
    → is_about model event ev ≡ true
    → slots ev.model ev.event ≡ slots model event
same_slot model event ev slots h =
    let (m, e) = and_parts (str_eq model ev.model) (str_eq event ev.event) h in
    sym (
      ap (λ a. slots a event) ((eq_iff model ev.model).0 m)
      ∙ ap (slots ev.model) ((eq_iff event ev.event).0 e))

times-Apart :
    (model event : String) (alerts : List (ℕ × AlertEvent)) (n : Notifier)
    → Apart n.cooldown_s (n.last_sent model event) (sent_times model event alerts n)
unfolding sent_times
times-Apart model event [] n = tt
times-Apart model event ((now, ev) ∷ rest) n = elim (notify-cases now ev n) [
  | inl dropped ↦ rw dropped (times-Apart model event rest n)
  | inr (wanted, due, sent) ↦
      let later = times-Apart model event rest (mark_sent now ev n) in
      elim (Bool-cases (is_about model event ev)) [
        | inl about ↦ rw sent (
            rw wanted (
              rw about (
                Apart-cons n.cooldown_s now (n.last_sent model event) _
                  (sym
                      (ap (is_recent n.cooldown_s now) (same_slot model event ev n.last_sent about))
                    ∙ due)
                  (rw about at later))))
        | inr other ↦ rw sent (rw wanted (rw other (rw other at later)))
      ]
]

-- The times of the alerts about a model and event that some sink wants.
abbrev pub wanted_times : String → String → List Sink → List (ℕ × AlertEvent) → List ℕ
wanted_times model event sinks [] = []
wanted_times model event sinks ((now, ev) ∷ rest) =
    let later = wanted_times model event sinks rest in
    if is_about model event ev && not (is_empty (eligible ev sinks)) then now ∷ later else later

-- Of these times, one after the other, each that is not too close behind the last one taken.
abbrev pub spaced : ℕ → Option ℕ → List ℕ → List ℕ
spaced gap last [] = []
spaced gap none (t ∷ ts) = t ∷ spaced gap (some t) ts
spaced gap (some last) (t ∷ ts) =
    let skipped = spaced gap (some last) ts in
    let taken = spaced gap (some t) ts in if leb (last + gap) t then t ∷ taken else skipped

spaced-taken :
    (gap now : ℕ) (last : Option ℕ) (ts : List ℕ)
    → is_recent gap now last ≡ false
    → spaced gap last (now ∷ ts) ≡ now ∷ spaced gap (some now) ts
spaced-taken gap now none ts due = refl
spaced-taken gap now (some last) ts due =
    let far : leb (last + gap) now ≡ true = ground (arith, due) in rw far refl

spaced-skipped :
    (gap now : ℕ) (last : Option ℕ) (ts : List ℕ)
    → is_recent gap now last ≡ true
    → spaced gap last (now ∷ ts) ≡ spaced gap last ts
spaced-skipped gap now none ts recent = cc
spaced-skipped gap now (some last) ts recent =
    let near : leb (last + gap) now ≡ false = ground (arith, recent) in rw near refl

sent_times-spaced :
    (model event : String) (alerts : List (ℕ × AlertEvent)) (n : Notifier)
    → sent_times model event alerts n
      ≡ spaced n.cooldown_s (n.last_sent model event) (wanted_times model event n.sinks alerts)
unfolding sent_times notify suppressed
sent_times-spaced model event [] n = refl
sent_times-spaced model event ((now, ev) ∷ rest) n =
    let gap = n.cooldown_s in
    elim (Bool-cases (is_about model event ev)) [
      | inr other ↦ elim (Bool-cases (is_empty (eligible ev n.sinks))) [
        | inl none_wants ↦ rw none_wants (rw other (sent_times-spaced model event rest n))
        | inr wanted ↦ elim (Bool-cases (is_recent gap now (n.last_sent ev.model ev.event))) [
          | inl recent ↦ rw wanted (rw recent (rw other (sent_times-spaced model event rest n)))
          | inr due ↦
              let later = sent_times-spaced model event rest (mark_sent now ev n) in
              rw wanted (rw due (rw other (rw wanted (rw other at later))))
        ]
      ]
      | inl about ↦
          let slot = ap (is_recent gap now) (same_slot model event ev n.last_sent about) in
          elim (Bool-cases (is_empty (eligible ev n.sinks))) [
            | inl none_wants ↦ rw none_wants (rw about (sent_times-spaced model event rest n))
            | inr wanted ↦ elim (Bool-cases (is_recent gap now (n.last_sent ev.model ev.event))) [
              | inl recent ↦ rw wanted (
                  rw recent (
                    rw about (
                      sent_times-spaced model event rest n
                      ∙ sym (
                          spaced-skipped gap now (n.last_sent model event) _ (sym slot ∙ recent)))))
              | inr due ↦
                  let later = sent_times-spaced model event rest (mark_sent now ev n) in
                  rw wanted (
                    rw due (
                      rw about (
                        rw wanted (
                          ap (λ ts. now ∷ ts) (rw about at later)
                          ∙ sym (
                              spaced-taken gap now (n.last_sent model event) _ (sym slot ∙ due))))))
            ]
          ]
    ]

-- The alerts about a model with an event that go out are, of those that some sink wants, each that comes the
-- cooldown or more behind the last one that went out, or that is remembered. So two never go out less than
-- the cooldown apart, none is lost that could go out, and one that no sink wants, or that comes too early,
-- delays no other.
pub sent_times-Apart :
    (model event : String) (alerts : List (ℕ × AlertEvent)) (n : Notifier)
    → (sent_times model event alerts n
        ≡ spaced n.cooldown_s (n.last_sent model event) (wanted_times model event n.sinks alerts))
      × Apart n.cooldown_s (n.last_sent model event) (sent_times model event alerts n)
sent_times-Apart model event alerts n =
    (sent_times-spaced model event alerts n, times-Apart model event alerts n)
