-- ===== src/Prelude/Json.antt =====
-- `any` values as `encoding/json` makes them, and `map[string]any`. The keys of a map are distinct,
-- so the first field of a name is the field of that name. `F` is `float64`.
use mathlib.Core.Bool.{Bool}
use mathlib.Core.Option.{Option, none, some}
use mathlib.Core.List.{List, [], ◌∷◌}
use rune_mcp.Prelude.Tests.{if◌then◌else◌}
use rune_mcp.Prelude.Text.{Text, teq}

mutual
  pub data Json (F : Type 0) : Type 0 where
    null : Json F
    bool : Bool → Json F
    num : F → Json F
    str : Text → Json F
    arr : Items F → Json F
    obj : Object F → Json F

  pub data Items (F : Type 0) : Type 0 where
    nil : Items F
    cons : Json F → Items F → Items F

  pub data Object (F : Type 0) : Type 0 where
    end : Object F
    field : Text → Json F → Object F → Object F

module _ {F : Type 0} where
  -- `m[key]`
  unfoldable pub get : Object F → Text → Option (Json F)
  get end key = none
  get (field k v m) key = if teq k key then some v else get m key

  unfoldable pub items : Items F → List (Json F)
  items nil = []
  items (cons x xs) = x ∷ items xs

  -- `v, ok := x.(string)`, and so for the other types.
  abbrev pub as_string : Option (Json F) → Option Text
  as_string (some (str s)) = some s
  as_string _ = none

  abbrev pub as_float : Option (Json F) → Option F
  as_float (some (num x)) = some x
  as_float _ = none

  abbrev pub as_array : Option (Json F) → Option (Items F)
  as_array (some (arr xs)) = some xs
  as_array _ = none

  abbrev pub as_object : Option (Json F) → Option (Object F)
  as_object (some (obj m)) = some m
  as_object _ = none
