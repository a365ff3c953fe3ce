-- ===== src/Router/Scrape/Readback.antt =====
-- What the router reads in a text in Prometheus' format.
use Prim.Native.Char.{code}
use Prim.Native.String.{◌++◌}
use llm_router_server_dashbo.Base.{
  ℕ, ◌≡◌, refl, ap, ◌∙◌, String, true, false, not, Option, none, some, List, [], ◌∷◌, ◌==◌,
  if◌then◌else◌, or_default, arith, and_parts, str_eq, eq_iff, All, Bool-cases, inl, inr,
}
use llm_router_server_dashbo.Base.Dict.{Dict, lookup, insert, lookup-insert}
use llm_router_server_dashbo.Router.Scrape.{
  is_space, is_name_start, is_name_char, all_chars, span, is_nil, lstrip, rstrip, split_lines,
  is_number, skip_labels, value_behind, parse_metric_line, on_line, on_lines, parse_metrics,
}
use llm_router_server_dashbo.Router.Scrape.Exposition.{
  Sample, name_of, value_text, labels_then, Line, comment, sample, render, exposition,
  is_value_char, no_break, is_label_char, IsLabels, IsLine, stops, span-append, all_chars-imp,
  all_chars-append, value_char-not_space, name_start-not_space, name_char-no_break, name_start-char,
  value_char-no_break, label_char-no_break, label_char-no_brace, rstrip-solid, rstrip-cons,
  is_nil-append, rstrip-append, split_lines-append,
}
use llm_router_server_dashbo.Router.Scrape.Numeral.{numeral_text}
use llm_router_server_dashbo.Router.Scrape.Numbers.{numeral-is_number, numeral-chars}

-- A number is no empty text.
number-not_nil : (s : String) → is_number s ≡ true → is_nil s ≡ false
unfolding is_number
number-not_nil String.[] h = cc
number-not_nil (String.◌∷◌ c s) h = refl

number-empty : ¬ (is_number "" ≡ true)
unfolding is_number
number-empty h = cc

labels-stop :
    (l : Option String) (literal : String)
    → stops is_name_char (labels_then l (value_text literal)) ≡ true
labels-stop none literal = refl
labels-stop (some l) literal = refl

skip_labels-then :
    (l : Option String) (literal : String)
    → IsLabels l
    → skip_labels (labels_then l (value_text literal)) ≡ value_text literal
unfolding skip_labels
skip_labels-then none literal h = refl
skip_labels-then (some l) literal h =
    let inner = all_chars-imp is_label_char (λ c. not (c == 125)) label_char-no_brace l h in
    rw (span-append (λ c. not (c == 125)) l (String.◌∷◌ "}" (value_text literal)) inner refl) refl

value_behind-text :
    (literal : String)
    → all_chars is_value_char literal ≡ true
    → is_number literal ≡ true
    → value_behind (span is_space (value_text literal)) ≡ some literal
unfolding span
value_behind-text String.[] h n = absurd (number-empty n)
value_behind-text (String.◌∷◌ c s) h n =
    let (here, rest) = and_parts (is_value_char (code c)) (all_chars is_value_char s) h in
    rw (value_char-not_space (code c) here) (rw n refl)

parse-render :
    (s : Sample)
    → IsLine (sample s)
    → parse_metric_line (render (sample s)) ≡ some (name_of s, (numeral_text s.value))
unfolding parse_metric_line
parse-render s (start, others, labels, numeral) =
    let chars = numeral-chars s.value numeral in
    let number = numeral-is_number s.value numeral in
    let tail = labels_then s.labels (value_text (numeral_text s.value)) in
    rw start (
      rw
        (span-append is_name_char s.others tail others
          (labels-stop s.labels (numeral_text s.value)))
        (rw (skip_labels-then s.labels (numeral_text s.value) labels)
          (rw (value_behind-text (numeral_text s.value) chars number) refl)))

tail-nonempty :
    (l : Option String) (literal : String) → is_nil (labels_then l (value_text literal)) ≡ false
tail-nonempty none literal = refl
tail-nonempty (some l) literal = refl

tail-solid :
    (l : Option String) (literal : String)
    → rstrip (value_text literal) ≡ value_text literal
    → rstrip (labels_then l (value_text literal)) ≡ labels_then l (value_text literal)
tail-solid none literal e = e
tail-solid (some l) literal e =
    let closed = rstrip-cons "}" (value_text literal) e refl in
    rstrip-cons "{" (l ++ String.◌∷◌ "}" (value_text literal))
      (rstrip-append l (String.◌∷◌ "}" (value_text literal)) closed refl)
      (is_nil-append l (String.◌∷◌ "}" (value_text literal)) refl)

tail-no_break :
    (l : Option String) (literal : String)
    → IsLabels l
    → all_chars no_break literal ≡ true
    → all_chars no_break (labels_then l (value_text literal)) ≡ true
tail-no_break none literal h k = k
tail-no_break (some l) literal h k =
    all_chars-append no_break l (String.◌∷◌ "}" (value_text literal))
      (all_chars-imp is_label_char no_break label_char-no_break l h) k

-- Nothing is stripped from a sample, and a comment is one still.
strip-sample :
    (s : Sample) → IsLine (sample s) → rstrip (lstrip (render (sample s))) ≡ render (sample s)
unfolding lstrip
strip-sample s (start, others, labels, numeral) =
    let chars = numeral-chars s.value numeral in
    let number = numeral-is_number s.value numeral in
    let tail = labels_then s.labels (value_text (numeral_text s.value)) in
    let full = tail-nonempty s.labels (numeral_text s.value) in
    let solid =
      rstrip-cons " " (numeral_text s.value) (rstrip-solid (numeral_text s.value) chars)
        (number-not_nil (numeral_text s.value) number) in
    rw (name_start-not_space (code s.first) start) (
      rstrip-cons s.first (s.others ++ tail)
        (rstrip-append s.others tail (tail-solid s.labels (numeral_text s.value) solid) full)
        (is_nil-append s.others tail full))

line-no_break : (line : Line) → IsLine line → all_chars no_break (render line) ≡ true
line-no_break (comment s) h = h
line-no_break (sample s) (start, others, labels, numeral) =
    let chars = numeral-chars s.value numeral in
    let number = numeral-is_number s.value numeral in
    let rest =
      all_chars-append no_break s.others (labels_then s.labels (value_text (numeral_text s.value)))
        (all_chars-imp is_name_char no_break name_char-no_break s.others others)
        (tail-no_break s.labels (numeral_text s.value) labels (
          all_chars-imp is_value_char no_break value_char-no_break (numeral_text s.value) chars)) in
    rw (name_char-no_break (code s.first) (name_start-char (code s.first) start)) rest

name_start-not_hash : (c : ℕ) → is_name_start c ≡ true → (c == 35) ≡ false
name_start-not_hash c h = ground arith

rstrip-hash : (s : String) → rstrip (String.◌∷◌ "#" s) ≡ String.◌∷◌ "#" (rstrip s)
unfolding rstrip
rstrip-hash s = elim (Bool-cases (is_nil (rstrip s))) [ inl e ↦ rw e refl | inr e ↦ rw e refl ]

on_comment :
    {F : Type 0} (zero_value : F) (add : F → F → F) (float : String → F) (s : String)
    (values : Dict F)
    → on_line zero_value add float (String.◌∷◌ "#" s) values ≡ values
unfolding on_line lstrip
on_comment zero_value add float s values = rw (rstrip-hash s) refl

module _ {F : Type 0} (zero_value : F) (add : F → F → F) (float : String → F) where
  -- What the format says of a metric: the sum of its samples, in their order.
  abbrev pub summed : String → Option F → List Line → Option F
  summed name acc [] = acc
  summed name acc (comment s ∷ lines) = summed name acc lines
  summed name acc (sample s ∷ lines) =
      summed name
        (if str_eq (name_of s) name
          then some (add (or_default acc zero_value) (float (numeral_text s.value)))
          else acc)
        lines

  abbrev added : Line → Dict F → Dict F
  added (comment s) values = values
  added (sample s) values =
      insert (name_of s)
        (add (or_default (lookup (name_of s) values) zero_value) (float (numeral_text s.value)))
        values

  on_line-render :
      (line : Line) (values : Dict F)
      → IsLine line
      → on_line zero_value add float (render line) values ≡ added line values
  unfolding on_line
  on_line-render (comment s) values h = on_comment zero_value add float s values
  on_line-render (sample s) values h =
      rw (strip-sample s h)
        (rw (parse-render s h) (rw (name_start-not_hash (code s.first) h.0) refl))

  read-nothing : (values : Dict F) → on_lines zero_value add float (split_lines "") values ≡ values
  unfolding on_lines split_lines
  read-nothing values = refl

  summed-added :
      (name : String) (line : Line) (lines : List Line) (values : Dict F)
      → summed name (lookup name (added line values)) lines
        ≡ summed name (lookup name values) (line ∷ lines)
  summed-added name (comment s) lines values = refl
  summed-added name (sample s) lines values =
      ap (λ acc. summed name acc lines)
        (lookup-insert (name_of s) name _ values ∙ elim (Bool-cases (str_eq (name_of s) name)) [
          | inl same ↦
              let e = ap (λ k. lookup k values) ((eq_iff (name_of s) name).0 same) in
              rw same
                (ap (λ v. some (add (or_default v zero_value) (float (numeral_text s.value)))) e)
          | inr other ↦ rw other refl
        ])

  read-lines :
      (name : String) (lines : List Line) (values : Dict F)
      → All IsLine lines
      → lookup name (on_lines zero_value add float (split_lines (exposition lines)) values)
        ≡ summed name (lookup name values) lines
  unfolding on_lines
  read-lines name [] values h = ap (lookup name) (read-nothing values)
  read-lines name (line ∷ lines) values (h, hs) =
      ap (λ ls. lookup name (on_lines zero_value add float ls values))
        (split_lines-append (render line) (exposition lines) (line-no_break line h))
      ∙ ap (λ vs. lookup name (on_lines zero_value add float (split_lines (exposition lines)) vs))
          (on_line-render line values h)
      ∙ read-lines name lines (added line values) hs
      ∙ summed-added name line lines values

  -- Of a text of comments and samples, the router reads for each name the sum of the values of that
  -- name's samples, in their order, whatever their labels; and a name without samples is not there. A
  -- sample has no timestamp, no closing brace within its labels, and a decimal number for its value: with or
  -- without a sign, a fraction or an exponent, not `NaN` or `+Inf`.
  pub parse_metrics-exposition :
      (name : String) (lines : List Line)
      → All IsLine lines
      → lookup name (parse_metrics zero_value add float (exposition lines)) ≡ summed name none lines
  unfolding parse_metrics lookup
  parse_metrics-exposition name lines h = read-lines name lines [] h
