-- ===== src/Router/Scrape/Numeral.antt =====
-- Decimal numbers as the format writes them: sign, digits, a fraction, an exponent. The special values (`NaN`,
-- `+Inf`) and a point with no digit behind it are left out.
use Prim.Native.String.{◌++◌}
use llm_router_server_dashbo.Base.{
  ℕ, ◌≡◌, String, Bool, true, false, Option, none, some, List, [], ◌∷◌, any, ◌==◌, if◌then◌else◌,
}
use llm_router_server_dashbo.Router.Scrape.{all_chars, is_nil}

pub data Sign : Type 0 where
  plus minus : Sign

pub record Exponent : Type 0 where
  pub is_upper : Bool
  pub sign : Option Sign
  pub digits : String

pub record Numeral : Type 0 where
  pub sign : Option Sign
  pub whole : String
  pub fraction : Option String
  pub exponent : Option Exponent

-- The codes of the ten digits.
abbrev pub decimals : List ℕ
decimals = 48 ∷ 49 ∷ 50 ∷ 51 ∷ 52 ∷ 53 ∷ 54 ∷ 55 ∷ 56 ∷ 57 ∷ []

abbrev pub is_decimal : ℕ → Bool
is_decimal c = any (λ d. d == c) decimals

abbrev pub signed : Option Sign → String → String
signed none rest = rest
signed (some plus) rest = String.◌∷◌ "+" rest
signed (some minus) rest = String.◌∷◌ "-" rest

abbrev pub exponent_text : Option Exponent → String
exponent_text none = ""
exponent_text (some e) =
    if e.is_upper
    then String.◌∷◌ "E" (signed e.sign e.digits)
    else String.◌∷◌ "e" (signed e.sign e.digits)

abbrev pub fraction_then : Option String → String → String
fraction_then none rest = rest
fraction_then (some digits) rest = String.◌∷◌ "." (digits ++ rest)

abbrev pub numeral_text : Numeral → String
numeral_text n = signed n.sign (n.whole ++ fraction_then n.fraction (exponent_text n.exponent))

abbrev pub AreDigits : String → Type 0
AreDigits s = (all_chars is_decimal s ≡ true) × (is_nil s ≡ false)

-- Digits before the point are needed only where there are none behind it.
abbrev pub IsMantissa : String → Option String → Type 0
IsMantissa whole none = AreDigits whole
IsMantissa whole (some digits) = (all_chars is_decimal whole ≡ true) × AreDigits digits

abbrev pub IsExponent : Option Exponent → Type 0
IsExponent none = Unit
IsExponent (some e) = AreDigits e.digits

abbrev pub IsNumeral : Numeral → Type 0
IsNumeral n = IsMantissa n.whole n.fraction × IsExponent n.exponent
