-- ===== src/Js/Value.antt =====
-- JavaScript values as the packages see them: numbers, and the tree of plain data that JSON payloads
-- and the state tree are made of (`unknown` in the TypeScript).
use privacy_layer_confidenti.Base.{ℕ, String, Bool, List, [], ◌∷◌}

-- A double: a sign, a mantissa and a power of two, in a canonical form that keeps -0 apart from 0.
-- The packages carry most numbers about without computing with them.
pub data Exponent : Type 0 where
  up down : ℕ → Exponent

pub data Number : Type 0 where
  finite : (negative : Bool) (mantissa : ℕ) (exponent : Exponent) → Number
  infinite : (negative : Bool) → Number
  nan : Number

mutual
  pub data Value : Type 0 where
    undefined null : Value
    bool : Bool → Value
    num : Number → Value
    bigint : (negative : Bool) (magnitude : ℕ) → Value
    str : String → Value
    arr : Items → Value
    obj : Fields → Value

  pub data Items : Type 0 where
    nil : Items
    item : Value → Items → Items

  pub data Fields : Type 0 where
    end : Fields
    field : String → Value → Fields → Fields

abbrev pub items : Items → List Value
items nil = []
items (item v vs) = v ∷ items vs
