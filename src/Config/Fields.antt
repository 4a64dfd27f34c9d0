-- ===== src/Config/Fields.antt =====
-- The fields of packages/config/src/config.ts: what binds a value, and the rule every route obeys.
pub mod Laws
use btravstack.Common.{
  ◌≡◌, refl, ℕ, zero, suc, ◌+◌, Bool, true, false, ◌&&◌, ◌||◌, not, leb, ltb, ◌==◌, Option, none,
  some, List, [], ◌∷◌, map, get, keep, all, length, if◌then◌else◌, Text, trim, is_nil, split, lower,
  is_digit, read_digits, nat_eq, text_eq, Result, ok, fail,
}
use btravstack.Config.{
  ℤ, pos, negsuc, le_int, Number, whole, broken, max_safe, min_safe, Doubles, Reason, is_required,
  is_empty, not_a_url, not_whole_text, not_a_flag, not_whole, out_of_bounds, too_few, Answer,
  answers, Field,
}

-- `check?.(value) ?? Ok(value)`.
unfoldable pub checked : {T : Type 0} → Option (T → Result Reason T) → T → Result Reason T
checked none value = ok value
checked (some check) value = check value

abbrev pub bound_text : {T : Type 0} → (Text → Result Reason T) → Text → Result Reason T
bound_text read [] = fail is_empty
bound_text read (c ∷ cs) = read (c ∷ cs)

unfoldable pub bound :
    {T : Type 0}
    → Option T
    → (Text → Result Reason T)
    → Option (T → Result Reason T)
    → Option Text
    → Result Reason T
bound none read check none = fail is_required
bound (some default) read check none = checked check default
bound default read check (some raw) = bound_text read (trim raw)

unfoldable pub present :
    {T : Type 0}
    → Text
    → Option T
    → (Text → Result Reason T)
    → Option (T → Result Reason T)
    → Field T
present variable default read check = record {
  variable = variable;
  parse = λ raw. answers (bound default read check raw);
  check = check;
}

unfoldable pub whole_number_in : ℤ → ℤ → Number → Result Reason Number
whole_number_in min max (broken tag) = fail (not_whole (broken tag))
whole_number_in min max (whole n) =
    if le_int min n && le_int n max then ok (whole n) else fail (out_of_bounds min max (whole n))

-- `/^[+-]?\d+$/`, with the number it stands for.
unfoldable pub unsigned : Text → Option ℕ
unsigned cs = if not (is_nil cs) && all is_digit cs then some (read_digits 0 cs) else none

abbrev pub negated : ℕ → ℤ
negated zero = pos 0
negated (suc n) = negsuc n

unfoldable pub decimal : Text → Option ℤ
decimal [] = none
decimal (c ∷ cs) =
    if c == 43
    then elim (unsigned cs) [ none ↦ none | some n ↦ some (pos n) ]
    else if c == 45
    then elim (unsigned cs) [ none ↦ none | some n ↦ some (negated n) ]
    else elim (unsigned (c ∷ cs)) [ none ↦ none | some n ↦ some (pos n) ]

unfoldable pub decimal_in : Doubles → ℤ → ℤ → Text → Option ℤ → Result Reason Number
decimal_in doubles min max value none = fail (not_whole_text value)
decimal_in doubles min max value (some n) = whole_number_in min max (doubles.rounded n)

unfoldable pub integer_in : Doubles → ℤ → ℤ → Text → Result Reason Number
integer_in doubles min max value = decimal_in doubles min max value (decimal value)

unfoldable pub absolute_url : (Text → Bool) → Text → Result Reason Text
absolute_url can_parse value = if can_parse value then ok value else fail not_a_url

unfoldable pub at_least : ℕ → List Text → Result Reason (List Text)
at_least min entries =
    if ltb (length entries) min then fail (too_few min (length entries)) else ok entries

-- true, 1, yes, on; false, 0, no, off.
abbrev pub flags : List (Text × Bool)
flags =
    ((116 ∷ 114 ∷ 117 ∷ 101 ∷ []), true)
    ∷ ((49 ∷ []), true)
    ∷ ((121 ∷ 101 ∷ 115 ∷ []), true)
    ∷ ((111 ∷ 110 ∷ []), true)
    ∷ ((102 ∷ 97 ∷ 108 ∷ 115 ∷ 101 ∷ []), false)
    ∷ ((48 ∷ []), false)
    ∷ ((110 ∷ 111 ∷ []), false)
    ∷ ((111 ∷ 102 ∷ 102 ∷ []), false)
    ∷ []

unfoldable pub flag_of : Text → Result Reason Bool
flag_of value = elim (get (map lower value) flags) [
  | none ↦ fail (not_a_flag value)
  | some flag ↦ ok flag
]

abbrev pub or_else : {A : Type 0} → A → Option A → A
or_else default none = default
or_else default (some a) = a

unfoldable pub string : Text → Option Text → Field Text
string variable default = present variable default (λ value. ok value) none

unfoldable pub integer : Doubles → Text → Option Number → Option ℤ → Option ℤ → Field Number
integer doubles variable default min max =
    let least = or_else min_safe min in
    let most = or_else max_safe max in
    present variable default (integer_in doubles least most) (some (whole_number_in least most))

unfoldable pub boolean : Text → Option Bool → Field Bool
boolean variable default = present variable default flag_of none

unfoldable pub url : (Text → Bool) → Text → Option Text → Field Text
url can_parse variable default =
    present variable default (absolute_url can_parse) (some (absolute_url can_parse))

unfoldable pub entries_of : Text → List Text
entries_of value = keep (λ entry. not (is_nil entry)) (map trim (split 44 value))

abbrev pub floor_of : Option (List Text) → ℕ
floor_of none = 1
floor_of (some default) = 0

unfoldable pub list : Text → Option (List Text) → Option ℕ → Field (List Text)
list variable default min =
    let rule = at_least (or_else (floor_of default) min) in
    present variable default (λ value. rule (entries_of value)) (some rule)

unfoldable pub port : Doubles → Text → Option Number → Field Number
port doubles variable default = integer doubles variable default (some (pos 0)) (some (pos 65535))

unfoldable pub pinned : {T : Type 0} → Option T → Field T → Field T
pinned none field = field
pinned (some value) field = record {
  variable = field.variable;
  parse = λ raw. answers (checked field.check value);
  check = field.check;
}
