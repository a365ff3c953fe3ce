-- ===== src/Base/Texts.antt =====
-- Python's truth of optional texts and numbers.
use Prim.Native.String.{String}
use mathlib.Core.Option.{Option, none, some}
use text.Mathlib.Text.{◌==◌}
use llm_router_server_dashbo.Base.Tests.{if◌then◌else◌}

-- a or b, where an empty text counts as missing
abbrev pub first_text : Option String → Option String → Option String
first_text none b = b
first_text (some a) b = if a == "" then b else some a
