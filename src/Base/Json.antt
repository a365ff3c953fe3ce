-- ===== src/Base/Json.antt =====
-- The values that Python's `json.loads` returns.
use llm_router_server_dashbo.Base.Tests.{if◌then◌else◌}
use Prim.Native.Nat.{ℕ, zero, suc}
use Prim.Native.String.{String}
use mathlib.Core.Bool.{Bool, true, false, not}
use mathlib.Core.Option.{Option, none, some}
use text.Mathlib.Text.{◌==◌}

-- `real` is a number that is no natural number: whether it is zero, and its literal; `list` and `dict` are the containers.
mutual
  pub data Json : Type 0 where
    null : Json
    bool : Bool → Json
    num : ℕ → Json
    real : Bool → String → Json
    str : String → Json
    list : Items → Json
    dict : Fields → Json

  pub data Items : Type 0 where
    nil : Items
    cons : Json → Items → Items

  pub data Fields : Type 0 where
    end : Fields
    field : String → Json → Fields → Fields

-- d.get(k): the reader keeps the last of two equal keys, so a value has each key once.
abbrev pub get : String → Fields → Option Json
get k end = none
get k (field j v rest) = if j == k then some v else get k rest

-- `isinstance(v, dict)`
abbrev pub as_dict : Json → Option Fields
as_dict (dict fs) = some fs
as_dict null = none
as_dict (bool b) = none
as_dict (num n) = none
as_dict (real z r) = none
as_dict (str s) = none
as_dict (list xs) = none

-- bool(v)
abbrev pub is_truthy : Json → Bool
is_truthy null = false
is_truthy (bool b) = b
is_truthy (num zero) = false
is_truthy (num (suc n)) = true
is_truthy (real z r) = not z
is_truthy (str s) = not (s == "")
is_truthy (list nil) = false
is_truthy (list (cons v vs)) = true
is_truthy (dict end) = false
is_truthy (dict (field k v fs)) = true
