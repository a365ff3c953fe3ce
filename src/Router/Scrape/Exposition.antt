-- ===== src/Router/Scrape/Exposition.antt =====
-- Texts in Prometheus' format, and how the router's text helpers take them apart.
use Prim.Native.Char.{Char, code}
use Prim.Native.String.{◌++◌}
use text.Mathlib.TextLemmas.{nil-append, cons-append}
use llm_router_server_dashbo.Base.{
  ℕ, ◌≡◌, refl, String, Bool, true, false, not, ◌&&◌, ◌||◌, Option, none, some, List, [], ◌∷◌, ◌==◌,
  arith, and_parts,
}
use llm_router_server_dashbo.Router.Scrape.{
  is_space, is_break, is_digit, is_name_start, is_name_char, all_chars, span, is_nil, rstrip,
  split_lines,
}
use llm_router_server_dashbo.Router.Scrape.Numeral.{Numeral, numeral_text, IsNumeral}

-- A sample: the first character of its name, the rest of it, its labels if it has any, and its value.
pub record Sample : Type 0 where
  pub first : Char
  pub others : String
  pub labels : Option String
  pub value : Numeral

abbrev pub name_of : Sample → String
name_of s = String.◌∷◌ s.first s.others

abbrev pub value_text : String → String
value_text literal = String.◌∷◌ " " literal

abbrev pub labels_then : Option String → String → String
labels_then none rest = rest
labels_then (some l) rest = String.◌∷◌ "{" (l ++ String.◌∷◌ "}" rest)

-- A line of the text: a comment, or a sample.
pub data Line : Type 0 where
  comment : String → Line
  sample : Sample → Line

abbrev pub render : Line → String
render (comment s) = String.◌∷◌ "#" s
render (sample s) =
    String.◌∷◌ s.first (s.others ++ labels_then s.labels (value_text (numeral_text s.value)))

abbrev pub exposition : List Line → String
exposition [] = ""
exposition (line ∷ lines) = render line ++ String.◌∷◌ "\n" (exposition lines)

-- The characters of numbers.
abbrev pub is_value_char : ℕ → Bool
is_value_char c = is_digit c || (c == 46 || (c == 43 || (c == 45 || (c == 101 || c == 69))))

abbrev pub no_break : ℕ → Bool
no_break c = not (is_break c)

abbrev pub is_label_char : ℕ → Bool
is_label_char c = not (c == 125) && no_break c

abbrev pub IsLabels : Option String → Type 0
IsLabels none = Unit
IsLabels (some l) = all_chars is_label_char l ≡ true

-- A line of the format without a timestamp, and with no brace in the values of its labels.
abbrev pub IsLine : Line → Type 0
IsLine (comment s) = all_chars no_break s ≡ true
IsLine (sample s) =
    (is_name_start (code s.first) ≡ true)
    × (all_chars is_name_char s.others ≡ true)
    × IsLabels s.labels
    × IsNumeral s.value

abbrev pub stops : (ℕ → Bool) → String → Bool
stops p String.[] = true
stops p (String.◌∷◌ c t) = not (p (code c))

pub not-true : (b : Bool) → not b ≡ true → b ≡ false
not-true b h = ground arith

pub span-append :
    (p : ℕ → Bool) (s t : String)
    → all_chars p s ≡ true
    → stops p t ≡ true
    → span p (s ++ t) ≡ (s, t)
unfolding span
span-append p String.[] String.[] h k = rw (nil-append "") refl
span-append p String.[] (String.◌∷◌ d t) h k =
    rw (nil-append (String.◌∷◌ d t)) (rw (not-true _ k) refl)
span-append p (String.◌∷◌ c s) t h k =
    let (here, rest) = and_parts (p (code c)) (all_chars p s) h in
    rw (cons-append c s t) (rw here (rw (span-append p s t rest k) refl))

pub all_chars-imp :
    (p q : ℕ → Bool)
    → ((c : ℕ) → p c ≡ true → q c ≡ true)
    → (s : String) → all_chars p s ≡ true
    → all_chars q s ≡ true
all_chars-imp p q f String.[] h = refl
all_chars-imp p q f (String.◌∷◌ c s) h =
    let (here, rest) = and_parts (p (code c)) (all_chars p s) h in
    rw (f (code c) here) (all_chars-imp p q f s rest)

pub all_chars-append :
    (p : ℕ → Bool) (s t : String)
    → all_chars p s ≡ true
    → all_chars p t ≡ true
    → all_chars p (s ++ t) ≡ true
all_chars-append p String.[] t h k = rw (nil-append t) k
all_chars-append p (String.◌∷◌ c s) t h k =
    let (here, rest) = and_parts (p (code c)) (all_chars p s) h in
    rw (cons-append c s t) (rw here (all_chars-append p s t rest k))

pub value_char-not_space : (c : ℕ) → is_value_char c ≡ true → is_space c ≡ false
value_char-not_space c h = ground arith

pub name_start-not_space : (c : ℕ) → is_name_start c ≡ true → is_space c ≡ false
name_start-not_space c h = ground arith

pub name_char-no_break : (c : ℕ) → is_name_char c ≡ true → no_break c ≡ true
name_char-no_break c h = ground arith

pub name_start-char : (c : ℕ) → is_name_start c ≡ true → is_name_char c ≡ true
name_start-char c h = ground arith

pub value_char-no_break : (c : ℕ) → is_value_char c ≡ true → no_break c ≡ true
value_char-no_break c h = ground arith

pub label_char-no_break : (c : ℕ) → is_label_char c ≡ true → no_break c ≡ true
label_char-no_break c h = (and_parts (not (c == 125)) (no_break c) h).1

pub label_char-no_brace : (c : ℕ) → is_label_char c ≡ true → not (c == 125) ≡ true
label_char-no_brace c h = (and_parts (not (c == 125)) (no_break c) h).0

-- The value's text ends a line, so there is nothing to strip at the end.
pub rstrip-solid : (s : String) → all_chars is_value_char s ≡ true → rstrip s ≡ s
unfolding rstrip
rstrip-solid String.[] h = refl
rstrip-solid (String.◌∷◌ c s) h =
    let (here, rest) = and_parts (is_value_char (code c)) (all_chars is_value_char s) h in
    rw (rstrip-solid s rest) (ground (arith, value_char-not_space (code c) here))

pub rstrip-cons :
    (c : Char) (s : String)
    → rstrip s ≡ s
    → is_nil s ≡ false
    → rstrip (String.◌∷◌ c s) ≡ String.◌∷◌ c s
unfolding rstrip
rstrip-cons c s e h = rw e (rw h refl)

pub is_nil-append : (s t : String) → is_nil t ≡ false → is_nil (s ++ t) ≡ false
is_nil-append String.[] t h = rw (nil-append t) h
is_nil-append (String.◌∷◌ c s) t h = rw (cons-append c s t) refl

pub rstrip-append : (s t : String) → rstrip t ≡ t → is_nil t ≡ false → rstrip (s ++ t) ≡ s ++ t
rstrip-append String.[] t e h = rw (nil-append t) e
rstrip-append (String.◌∷◌ c s) t e h =
    rw (cons-append c s t) (rstrip-cons c (s ++ t) (rstrip-append s t e h) (is_nil-append s t h))

pub split_lines-append :
    (s t : String)
    → all_chars no_break s ≡ true
    → split_lines (s ++ String.◌∷◌ "\n" t) ≡ s ∷ split_lines t
unfolding split_lines
split_lines-append String.[] t h = rw (nil-append (String.◌∷◌ "\n" t)) refl
split_lines-append (String.◌∷◌ c s) t h =
    let (here, rest) = and_parts (no_break (code c)) (all_chars no_break s) h in
    rw (cons-append c s (String.◌∷◌ "\n" t))
      (rw (not-true _ here) (rw (split_lines-append s t rest) refl))
