-- ===== src/Json.antt =====
-- The operations of serde_json that the MCP handler calls, as an interface: the values are a parameter.
-- `get` is the entry of an object, and `object` builds one of its entries.
use mcp_lock.Prelude.{ℕ, String, Bool, Option, none, List}
use mcp_lock.Prelude.BTreeMap.{BTreeMap}
use mcp_lock.Prelude.Results.{Result}
use mcp_lock.Child.{Code}

pub record Json (Value : Type 0) : Type 0 where
  pub get : Value → String → Option Value
  pub as_str : Value → Option String
  pub is_object : Value → Bool
  pub null : Value
  pub bool : Bool → Value
  pub integer : Code → Value
  pub string : String → Value
  pub array : List Value → Value
  pub object : List (String × Value) → Value

-- What a value is, as far as the source asks: `as_u64` of a number is none where it is negative, has
-- a fraction or exceeds a u64.
pub data Kind : Type 0 where
  null other : Kind
  text : String → Kind
  number : (as_u64 : Option ℕ) → Kind

abbrev pub u64_of : Kind → Option ℕ
u64_of (Kind.number n) = n
u64_of Kind.null = none
u64_of Kind.other = none
u64_of (Kind.text s) = none

-- What else the child client and the mail server read of a value, with the parser and the printer,
-- whose errors are texts.
pub record JsonReads (Value : Type 0) : Type 0 where
  pub kind : Value → Kind
  pub as_i64 : Value → Option Code
  pub as_array : Value → Option (List Value)
  pub from_str : String → Result Value String
  pub to_string : Value → Result String String

-- What the listing of tools does to an object: `as_object_mut` is its map, where the value is one, and
-- `of_object` the value that has that map.
pub record JsonObjects (Value : Type 0) : Type 0 where
  pub as_object : Value → Option (BTreeMap Value)
  pub of_object : BTreeMap Value → Value
  pub string : String → Value
