-- ===== src/Base/Bytes.antt =====
-- Python's `bytes` as lists of numbers.
use Prim.Native.Nat.{ℕ, zero, suc}
use Prim.Native.Char.{code}
use Prim.Native.String.{String}
use mathlib.Core.Bool.{Bool, true, false, ◌&&◌, ◌||◌}
use mathlib.Core.List.{List, [], ◌∷◌, reverse}
use llm_router_server_dashbo.Base.Tests.{if◌then◌else◌, ◌==◌, is_empty}

abbrev pub bytes_of : String → List ℕ
bytes_of String.[] = []
bytes_of (String.◌∷◌ c s) = code c ∷ bytes_of s

-- s.startswith(p)
abbrev pub starts_with : List ℕ → List ℕ → Bool
starts_with s [] = true
starts_with [] (c ∷ p) = false
starts_with (d ∷ s) (c ∷ p) = d == c && starts_with s p

-- p in s
abbrev pub contains : List ℕ → List ℕ → Bool
contains p [] = is_empty p
contains p (d ∷ s) = starts_with (d ∷ s) p || contains p s

-- The ASCII whitespace that `bytes.strip` takes off.
abbrev pub is_space : ℕ → Bool
is_space c = c == 32 || (c == 9 || (c == 10 || (c == 11 || (c == 12 || c == 13))))

abbrev pub lstrip : List ℕ → List ℕ
lstrip [] = []
lstrip (c ∷ s) = let rest = lstrip s in if is_space c then rest else c ∷ s

-- s.strip()
abbrev pub strip : List ℕ → List ℕ
strip s = reverse (lstrip (reverse (lstrip s)))

abbrev pub equal_bytes : List ℕ → List ℕ → Bool
equal_bytes [] [] = true
equal_bytes (c ∷ s) (d ∷ t) = c == d && equal_bytes s t
equal_bytes [] (d ∷ t) = false
equal_bytes (c ∷ s) [] = false

abbrev pub before_first : ℕ → List (List ℕ) → List (List ℕ)
before_first c [] = (c ∷ []) ∷ []
before_first c (line ∷ rest) = (c ∷ line) ∷ rest

-- s.split(sep) at one byte; the result is never empty.
abbrev pub split : ℕ → List ℕ → List (List ℕ)
split sep [] = [] ∷ []
split sep (c ∷ s) = let rest = split sep s in if c == sep then [] ∷ rest else before_first c rest

abbrev pub drop : ℕ → List ℕ → List ℕ
drop zero s = s
drop (suc n) [] = []
drop (suc n) (c ∷ s) = drop n s
