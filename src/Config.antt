-- ===== src/Config.antt =====
-- packages/config/src/config.ts: fields of the environment, each read by a parser, a default or a pin
-- under one rule, and the schema that reads them all. A value of the environment is a text or absent.
-- A JavaScript number is a whole number or is not one. `URL.canParse` and the rounding of `Number` are
-- parameters.
pub mod Fields
pub mod Schemas
use btravstack.Common.{
  ◌≡◌, refl, ℕ, suc, ◌-◌, ◌≤◌, ◌<◌, Bool, true, false, ◌&&◌, ◌||◌, not, leb, Option, none, some,
  List, [], ◌∷◌, if◌then◌else◌, Text, Result, ok, fail,
}

pub data ℤ : Type 0 where
  pos negsuc : ℕ → ℤ

abbrev pub le_int : ℤ → ℤ → Bool
le_int (pos a) (pos b) = leb a b
le_int (pos a) (negsuc b) = false
le_int (negsuc a) (pos b) = true
le_int (negsuc a) (negsuc b) = leb b a

-- A whole number, or NaN, an infinity or a fraction, told apart by a tag.
pub data Number : Type 0 where
  whole : ℤ → Number
  broken : ℕ → Number

-- `Number.MAX_SAFE_INTEGER` and its opposite.
abbrev pub max_safe : ℤ
max_safe = pos 9007199254740991

abbrev pub min_safe : ℤ
min_safe = negsuc 9007199254740990

-- The number that a decimal is read as: itself where it is safe.
pub record Doubles : Type 0 where
  pub rounded : ℤ → Number
  pub exact : (n : ℤ) → le_int min_safe n ≡ true → le_int n max_safe ≡ true → rounded n ≡ whole n

-- Why a value is not the one a field wanted: the data of each message.
pub data Reason : Type 0 where
  is_required is_empty not_a_url : Reason
  not_whole_text not_a_flag : Text → Reason
  not_whole : Number → Reason
  out_of_bounds : ℤ → ℤ → Number → Reason
  too_few : ℕ → ℕ → Reason
  said : Text → Reason
  raised : ℕ → Reason

-- What a field's `parse` comes to: a result, which holds a value, a reason or a defect, or a throw.
pub data Answer (T : Type 0) : Type 0 where
  answers : Result Reason T → Answer T
  defects throws : ℕ → Answer T

pub record Field (T : Type 0) : Type 0 where
  pub variable : Text
  pub parse : Option Text → Answer T
  pub check : Option (T → Result Reason T)
