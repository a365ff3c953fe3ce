-- ===== src/Router/Usage/Chunks.antt =====
-- How the response is cut into chunks does not matter.
use llm_router_server_dashbo.Base.{
  ℕ, suc, zero, ◌<◌, ◌≡◌, ◌⊎◌, refl, sym, ap, ◌∙◌, true, false, ◌&&◌, Option, none, some, List, [],
  ◌∷◌, ◌++◌, length, ◌==◌, arith, Bool-cases, Option-cases, inl, inr, length-append,
}
use mathlib.Core.List.{append-nil, append_assoc}
use llm_router_server_dashbo.Base.Json.{Json}
use llm_router_server_dashbo.Base.Bytes.{split}
use llm_router_server_dashbo.Router.Usage.{
  Bytes, split_event, Captured, Scan, after_lines, LineResult, more, raised, handle_lines,
  scan_events, scan_sse_for_usage, next_chunk, event_stream,
}

-- What the first event of a buffer of two bytes or more is.
split_event-cases :
    (c d : ℕ) (s : Bytes) {event rest : Bytes}
    → split_event (c ∷ d ∷ s) ≡ some (event, rest)
    → ((c == 10 && d == 10) ≡ true) × (event ≡ []) × (rest ≡ s)
      ⊎ ((later : Bytes) × ((c == 10 && d == 10) ≡ false)
          × (split_event (d ∷ s) ≡ some (later, rest))
          × (event ≡ c ∷ later))
unfolding split_event
split_event-cases c d s {event} {rest} h = elim (Bool-cases (c == 10 && d == 10)) [
  | inl blank ↦
      let e : ◌≡◌ {A = Option (Bytes × Bytes)} (some ([], s)) (some (event, rest)) =
        rw blank at h in
      inl (blank, (cc), (cc))
  | inr text ↦ elim (Option-cases (split_event (d ∷ s))) [
    | inl nothing ↦
        let e : ◌≡◌ {A = Option (Bytes × Bytes)} none (some (event, rest)) =
          rw nothing at (rw text at h) in
        cc
    | inr (later, found) ↦
        let e : ◌≡◌ {A = Option (Bytes × Bytes)} (some (c ∷ later.0, later.1))
            (some (event, rest)) =
          rw found at (rw text at h) in
        let q : later.1 ≡ rest = cc in
        inr (later.0, text, found ∙ ap (λ r. some (later.0, r)) q, (cc))
  ]
]

split_event-shorter :
    (buffer : Bytes) {event rest : Bytes}
    → split_event buffer ≡ some (event, rest)
    → length rest < length buffer
split_event-shorter [] h = unfold split_event in cc
split_event-shorter (c ∷ []) h = unfold split_event in cc
split_event-shorter (c ∷ d ∷ s) {event} {rest} h = elim (split_event-cases c d s h) [
  | inl (blank, e, q) ↦ rw q (omega arith)
  | inr (later, text, found, e) ↦ omega (arith, split_event-shorter (d ∷ s) found)
]

-- The first blank line stays the first when further bytes follow.
split_event-append :
    (buffer further : Bytes) {event rest : Bytes}
    → split_event buffer ≡ some (event, rest)
    → split_event (buffer ++ further) ≡ some (event, rest ++ further)
unfolding split_event
split_event-append [] further h = cc
split_event-append (c ∷ []) further h = cc
split_event-append (c ∷ d ∷ s) further {event} {rest} h = elim (split_event-cases c d s h) [
  | inl (blank, e, q) ↦ rw blank (rw e (rw q refl))
  | inr (later, text, found, e) ↦
      rw text (rw (split_event-append (d ∷ s) further found) (rw e refl))
]

LineResult-cases :
    (o : LineResult) → ((c : Captured) × (o ≡ more c)) ⊎ ((c : Captured) × (o ≡ raised c))
LineResult-cases (more c) = inl (c, refl)
LineResult-cases (raised c) = inr (c, refl)

after_lines-ext :
    (f g : Bytes → Captured → Scan) (rest : Bytes) (o : LineResult)
    → ((c : Captured) → f rest c ≡ g rest c)
    → after_lines f rest o ≡ after_lines g rest o
after_lines-ext f g rest (more c) h = h c
after_lines-ext f g rest (raised c) h = refl

-- b"".join(chunks)
abbrev pub joined : List Bytes → Bytes
joined [] = []
joined (chunk ∷ chunks) = chunk ++ joined chunks

module _ (loads : Bytes → Option Json) where
  -- More fuel than bytes is as good as any.
  pub scan_events-enough :
      (f g : ℕ) (buffer : Bytes) (captured : Captured)
      → length buffer < f
      → length buffer < g
      → scan_events loads f buffer captured ≡ scan_events loads g buffer captured
  unfolding scan_events
  scan_events-enough zero g buffer captured h k = absurd (omega arith)
  scan_events-enough (suc f) zero buffer captured h k = absurd (omega arith)
  scan_events-enough (suc f) (suc g) buffer captured h k =
      elim (Option-cases (split_event buffer)) [
        | inl nothing ↦ rw nothing refl
        | inr (e, found) ↦
            let shorter = split_event-shorter buffer found in
            rw found (
              after_lines-ext (scan_events loads f) (scan_events loads g) e.1 _
                (λ c. scan_events-enough f g e.1 c (omega arith) (omega arith)))
      ]

  -- What a scan leaves is what a scan of more bytes goes on with.
  scan_events-append :
      (f g : ℕ) (buffer chunk : Bytes) (captured : Captured)
      → length buffer < f
      → length (buffer ++ chunk) < g
      → scan_events loads g (buffer ++ chunk) captured
        ≡ next_chunk loads chunk (scan_events loads f buffer captured)
  unfolding scan_events scan_sse_for_usage
  scan_events-append zero g buffer chunk captured h k = absurd (omega arith)
  scan_events-append (suc f) zero buffer chunk captured h k = absurd (omega arith)
  scan_events-append (suc f) (suc g) buffer chunk captured h k =
      elim (Option-cases (split_event buffer)) [
        | inl nothing ↦ rw nothing (
            scan_events-enough (suc g) (suc (length (buffer ++ chunk))) (buffer ++ chunk) captured k
              (omega arith))
        | inr (e, found) ↦
            let shorter = split_event-shorter buffer found in
            let later = split_event-append buffer chunk found in
            let bound = length-append e.1 chunk in
            let whole = length-append buffer chunk in
            rw (found, later)
              (elim (LineResult-cases (handle_lines loads (split 10 e.0) captured)) [
                | inl (c, o) ↦ rw o (scan_events-append f g e.1 chunk c (omega arith) (omega arith))
                | inr (c, o) ↦ rw o refl
              ])
      ]

  scan_sse-append :
      (seen chunk : Bytes) (captured : Captured)
      → scan_sse_for_usage loads (seen ++ chunk) captured
        ≡ next_chunk loads chunk (scan_sse_for_usage loads seen captured)
  unfolding scan_sse_for_usage
  scan_sse-append seen chunk captured =
      scan_events-append (suc (length seen)) (suc (length (seen ++ chunk))) seen chunk captured
        (omega arith) (omega arith)

  event_stream-scanned :
      (chunks : List Bytes) (seen : Bytes) (captured : Captured)
      → event_stream loads chunks (scan_sse_for_usage loads seen captured)
        ≡ scan_sse_for_usage loads (seen ++ joined chunks) captured
  unfolding event_stream
  event_stream-scanned [] seen captured = rw (append-nil seen) refl
  event_stream-scanned (chunk ∷ chunks) seen captured =
      ap (event_stream loads chunks) (sym (scan_sse-append seen chunk captured))
      ∙ event_stream-scanned chunks (seen ++ chunk) captured
      ∙ ap (λ s. scan_sse_for_usage loads s captured) (append_assoc seen chunk (joined chunks))

  scan_sse-nil : (captured : Captured) → scan_sse_for_usage loads [] captured ≡ (some [], captured)
  unfolding scan_sse_for_usage split_event
  scan_sse-nil captured = refl

  -- The usage that a stream reports does not depend on how the network cuts it into chunks: chunk by chunk,
  -- the scanner captures what it captures in the whole at once, an exception included, and leaves the
  -- same rest.
  pub event_stream-joined :
      (chunks : List Bytes) (captured : Captured)
      → event_stream loads chunks (some [], captured)
        ≡ scan_sse_for_usage loads (joined chunks) captured
  event_stream-joined chunks captured =
      ap (event_stream loads chunks) (sym (scan_sse-nil captured))
      ∙ event_stream-scanned chunks [] captured
