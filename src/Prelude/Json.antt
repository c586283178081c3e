-- ===== src/Prelude/Json.antt =====
-- Values of parsed JSON, and of the columns of type JSON.
use mathlib.Core.Bool.{Bool}
use mathlib.Core.Option.{Option, none, some}
use rebecca_reseller_bot.Prelude.Tests.{if◌then◌else◌}
use rebecca_reseller_bot.Prelude.Int.{ℤ}
use rebecca_reseller_bot.Prelude.Text.{Text, teq}

mutual
  pub data Json : Type 0 where
    null : Json
    bool : Bool → Json
    int : ℤ → Json
    -- a float: its truncation to an integer, and its `str`
    float : ℤ → Text → Json
    str : Text → Json
    arr : Items → Json
    obj : Fields → Json

  pub data Items : Type 0 where
    nil : Items
    cons : Json → Items → Items

  -- the entries of a dict, in insertion order
  pub data Fields : Type 0 where
    end : Fields
    field : Text → Json → Fields → Fields

-- `d.get(key)` on the entries of a dict
unfoldable pub get_field : Text → Fields → Option Json
get_field k end = none
get_field k (field j v fs) = if teq k j then some v else get_field k fs
