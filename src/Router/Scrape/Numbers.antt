-- ===== src/Router/Scrape/Numbers.antt =====
-- Every decimal number is one to the router's pattern.
use Prim.Native.Char.{code}
use Prim.Native.String.{◌++◌}
use text.Mathlib.TextLemmas.{nil-append, cons-append}
use llm_router_server_dashbo.Base.{
  ℕ, ◌≡◌, refl, String, Bool, true, false, not, Option, none, some, ◌==◌, arith, and_parts,
  Bool-cases, inl, inr,
}
use llm_router_server_dashbo.Router.Scrape.{
  is_digit, all_chars, span, is_nil, after_char, is_sign, skip_sign, is_exponent, is_number,
  behind_digits,
}
use llm_router_server_dashbo.Router.Scrape.Numeral.{
  Sign, plus, minus, Exponent, Numeral, is_decimal, signed, exponent_text, fraction_then,
  numeral_text, AreDigits, IsMantissa, IsExponent, IsNumeral,
}
use llm_router_server_dashbo.Router.Scrape.Exposition.{
  is_value_char, stops, not-true, span-append, all_chars-imp, all_chars-append,
}

decimal-digit : (c : ℕ) → is_decimal c ≡ true → is_digit c ≡ true
decimal-digit c h = ground arith

decimal-value_char : (c : ℕ) → is_decimal c ≡ true → is_value_char c ≡ true
decimal-value_char c h = ground arith

decimal-not_sign : (c : ℕ) → is_decimal c ≡ true → not (is_sign c) ≡ true
decimal-not_sign c h = ground arith

digits-of : (s : String) → all_chars is_decimal s ≡ true → all_chars is_digit s ≡ true
digits-of = all_chars-imp is_decimal is_digit decimal-digit

values-of : (s : String) → all_chars is_decimal s ≡ true → all_chars is_value_char s ≡ true
values-of = all_chars-imp is_decimal is_value_char decimal-value_char

after_char-stops : (p : ℕ → Bool) (s : String) → stops p s ≡ true → after_char p s ≡ none
after_char-stops p String.[] h = refl
after_char-stops p (String.◌∷◌ c s) h = rw (not-true _ h) refl

skip_sign-signed :
    (s : Option Sign) (t : String) → stops is_sign t ≡ true → skip_sign (signed s t) ≡ t
skip_sign-signed none t h = rw (after_char-stops is_sign t h) refl
skip_sign-signed (some plus) t h = refl
skip_sign-signed (some minus) t h = refl

digits-no_sign :
    (s t : String)
    → all_chars is_decimal s ≡ true
    → is_nil s ≡ false
    → stops is_sign (s ++ t) ≡ true
digits-no_sign String.[] t h k = cc
digits-no_sign (String.◌∷◌ c s) t h k =
    let (here, rest) = and_parts (is_decimal (code c)) (all_chars is_decimal s) h in
    rw (cons-append c s t) (decimal-not_sign (code c) here)

span-all : (s : String) → all_chars is_decimal s ≡ true → span is_digit s ≡ (s, "")
unfolding span
span-all String.[] h = refl
span-all (String.◌∷◌ c s) h =
    let (here, rest) = and_parts (is_decimal (code c)) (all_chars is_decimal s) h in
    rw (decimal-digit (code c) here) (rw (span-all s rest) refl)

all-no_sign : (s : String) → AreDigits s → stops is_sign s ≡ true
all-no_sign String.[] (h, k) = cc
all-no_sign (String.◌∷◌ c s) (h, k) =
    decimal-not_sign (code c) (and_parts (is_decimal (code c)) (all_chars is_decimal s) h).0

exponent-is_exponent : (e : Option Exponent) → IsExponent e → is_exponent (exponent_text e) ≡ true
unfolding is_exponent
exponent-is_exponent none h = refl
exponent-is_exponent (some e) h = elim (Bool-cases e.is_upper) [
  | inl upper ↦ rw upper (
      rw (skip_sign-signed e.sign e.digits (all-no_sign e.digits h))
        (rw (span-all e.digits h.0) (rw h.1 refl)))
  | inr lower ↦ rw lower (
      rw (skip_sign-signed e.sign e.digits (all-no_sign e.digits h))
        (rw (span-all e.digits h.0) (rw h.1 refl)))
]

exponent-stops :
    (p : ℕ → Bool) (e : Option Exponent)
    → p 69 ≡ false
    → p 101 ≡ false
    → stops p (exponent_text e) ≡ true
exponent-stops p none upper lower = refl
exponent-stops p (some e) upper lower = elim (Bool-cases e.is_upper) [
  | inl is_upper ↦ rw is_upper (rw upper refl)
  | inr is_lower ↦ rw is_lower (rw lower refl)
]

mantissa-number :
    (whole : String) (fraction : Option String) (e : Option Exponent)
    → IsMantissa whole fraction
    → IsExponent e
    → behind_digits (span is_digit (whole ++ fraction_then fraction (exponent_text e))) ≡ true
mantissa-number whole none e (digits, some_there) h =
    rw
      (span-append is_digit whole (exponent_text e) (digits-of whole digits)
        (exponent-stops is_digit e refl refl))
      (rw
        (
          after_char-stops (λ c. c == 46) (exponent_text e)
              (exponent-stops (λ c. c == 46) e refl refl),
          behind_digits,
        )
        (rw some_there (rw (exponent-is_exponent e h) refl)))
mantissa-number whole (some fraction) e (before, (digits, some_there)) h =
    rw
      (span-append is_digit whole (String.◌∷◌ "." (fraction ++ exponent_text e))
        (digits-of whole before) refl)
      (rw
        (span-append is_digit fraction (exponent_text e) (digits-of fraction digits)
          (exponent-stops is_digit e refl refl))
        (rw some_there (rw (exponent-is_exponent e h) refl)))

mantissa-no_sign :
    (whole : String) (fraction : Option String) (rest : String)
    → IsMantissa whole fraction
    → stops is_sign (whole ++ fraction_then fraction rest) ≡ true
mantissa-no_sign whole none rest (digits, some_there) = digits-no_sign whole rest digits some_there
mantissa-no_sign String.[] (some fraction) rest h =
    rw (nil-append (String.◌∷◌ "." (fraction ++ rest))) refl
mantissa-no_sign (String.◌∷◌ c s) (some fraction) rest (before, h) =
    digits-no_sign (String.◌∷◌ c s) (String.◌∷◌ "." (fraction ++ rest)) before refl

pub numeral-is_number : (n : Numeral) → IsNumeral n → is_number (numeral_text n) ≡ true
unfolding is_number
numeral-is_number n (mantissa, h) =
    rw
      (skip_sign-signed n.sign (n.whole ++ fraction_then n.fraction (exponent_text n.exponent))
        (mantissa-no_sign n.whole n.fraction (exponent_text n.exponent) mantissa))
      (mantissa-number n.whole n.fraction n.exponent mantissa h)

signed-chars :
    (s : Option Sign) (t : String)
    → all_chars is_value_char t ≡ true
    → all_chars is_value_char (signed s t) ≡ true
signed-chars none t h = h
signed-chars (some plus) t h = h
signed-chars (some minus) t h = h

exponent-chars :
    (e : Option Exponent) → IsExponent e → all_chars is_value_char (exponent_text e) ≡ true
exponent-chars none h = refl
exponent-chars (some e) h = elim (Bool-cases e.is_upper) [
  | inl upper ↦ rw upper (signed-chars e.sign e.digits (values-of e.digits h.0))
  | inr lower ↦ rw lower (signed-chars e.sign e.digits (values-of e.digits h.0))
]

mantissa-chars :
    (whole : String) (fraction : Option String) (rest : String)
    → IsMantissa whole fraction
    → all_chars is_value_char rest ≡ true
    → all_chars is_value_char (whole ++ fraction_then fraction rest) ≡ true
mantissa-chars whole none rest h k =
    all_chars-append is_value_char whole rest (values-of whole h.0) k
mantissa-chars whole (some fraction) rest (before, (digits, there)) k =
    all_chars-append is_value_char whole (String.◌∷◌ "." (fraction ++ rest))
      (values-of whole before)
      (all_chars-append is_value_char fraction rest (values-of fraction digits) k)

pub numeral-chars : (n : Numeral) → IsNumeral n → all_chars is_value_char (numeral_text n) ≡ true
numeral-chars n (mantissa, h) =
    signed-chars n.sign (n.whole ++ fraction_then n.fraction (exponent_text n.exponent)) (
      mantissa-chars n.whole n.fraction (exponent_text n.exponent) mantissa
        (exponent-chars n.exponent h))
