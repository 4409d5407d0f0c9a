-- ===== src/Prelude/Json.antt =====
-- JSON values as the program meets them. Numbers are those that the code reads, counts of tokens.
use Prim.Native.Nat.{ℕ}
use mathlib.Core.Bool.{Bool}
use agentic_octopus.Prelude.Texts.{Text}

mutual
  pub data Json : Type 0 where
    null : Json
    bool : Bool → Json
    num : ℕ → Json
    str : Text → Json
    arr : Items → Json
    obj : Fields → Json

  pub data Items : Type 0 where
    nil : Items
    cons : Json → Items → Items

  pub data Fields : Type 0 where
    end : Fields
    field : Text → Json → Fields → Fields
