-- ===== src/Config/Fields/Laws.antt =====
-- The rule that every route into a field of packages/config/src/config.ts obeys.
use btravstack.Common.{
  ◌≡◌, refl, sym, ap, subst, ◌∙◌, ℕ, suc, ◌≤◌, true, false, ◌&&◌, not, ltb, Option, none, some,
  List, [], ◌∷◌, map, keep, all, All, length, Text, trim, is_nil, split, is_digit, nat_eq, Result,
  ok, if_passes-ok, if_stops-ok, List-cases, trim-minus, inl, inr, Bool-cases, and-true, arith,
  print_number, read_digits-print_number, all-print_number, print_number-cons, trim-digits,
  trim-trim,
}
use btravstack.Config.{
  ℤ, pos, negsuc, le_int, Number, whole, broken, max_safe, min_safe, Doubles, Reason, answers,
  Field,
}
use btravstack.Config.Fields.{
  checked, bound, bound_text, present, whole_number_in, unsigned, decimal, decimal_in, integer_in,
  at_least, or_else, floor_of, integer, list, entries_of, pinned,
}

module _ {T : Type 0} where
  -- What a rule passes, it passes unchanged and passes again.
  pub IsSteady : Option (T → Result Reason T) → Type 0
  IsSteady check =
      (given value : T) → checked check given ≡ ok value → checked check value ≡ ok value

  -- Every value a field answers keeps a rule.
  pub IsRuled : Option (T → Result Reason T) → Field T → Type 0
  IsRuled check field =
      (raw : Option Text) (value : T)
      → field.parse raw ≡ answers (ok value)
      → checked check value ≡ ok value

  answers-inj : {first second : Result Reason T} → answers first ≡ answers second → first ≡ second
  answers-inj e = cc

  bound_text-ok :
      (read : Text → Result Reason T) (value : T) (text : Text)
      → bound_text read text ≡ ok value
      → (given : Text) × (read given ≡ ok value)
  bound_text-ok read value [] e = absurd (cc)
  bound_text-ok read value (c ∷ cs) e = (c ∷ cs, e)

  pub present-IsRuled :
      (variable : Text) (default : Option T) (read : Text → Result Reason T)
      (check : Option (T → Result Reason T))
      → IsSteady check
      → ((text : Text) (value : T) → read text ≡ ok value → checked check value ≡ ok value)
      → IsRuled check (present variable default read check)
  unfolding IsRuled IsSteady present bound
  present-IsRuled variable none read check steady reads none value e = absurd (cc)
  present-IsRuled variable (some default) read check steady reads none value e =
      steady default value (answers-inj e)
  present-IsRuled variable default read check steady reads (some raw) value e =
      let (text, read_ok) = bound_text-ok read value (trim raw) (answers-inj e) in
      reads text value read_ok

  pub pinned-IsRuled :
      (pin : Option T) (field : Field T)
      → IsSteady field.check
      → IsRuled field.check field
      → IsRuled field.check (pinned pin field)
  unfolding IsRuled IsSteady pinned
  pinned-IsRuled none field steady ruled raw value e = ruled raw value e
  pinned-IsRuled (some pin) field steady ruled raw value e = steady pin value (answers-inj e)

-- A number between two bounds.
pub record IsWithin (min max : ℤ) (number : Number) : Type 0 where
  pub at : ℤ
  pub is_at : number ≡ whole at
  pub above : le_int min at ≡ true
  pub below : le_int at max ≡ true

whole_number_in-IsWithin :
    (min max : ℤ) (given number : Number)
    → whole_number_in min max given ≡ ok number
    → IsWithin min max number
unfolding whole_number_in
whole_number_in-IsWithin min max (broken tag) number e = absurd (cc)
whole_number_in-IsWithin min max (whole n) number e =
    let (within, same) = if_passes-ok (le_int min n && le_int n max) _ (whole n) e in
    let (above, below) = and-true (le_int min n) (le_int n max) within in
    record { at = n; is_at = sym same; above = above; below = below }

whole_number_in-of_IsWithin :
    (min max : ℤ) (number : Number)
    → IsWithin min max number
    → whole_number_in min max number ≡ ok number
unfolding whole_number_in
whole_number_in-of_IsWithin min max number within =
    rw (within.is_at, within.above, within.below) refl

decimal_in-IsWithin :
    (doubles : Doubles) (min max : ℤ) (text : Text) (read : Option ℤ) (number : Number)
    → decimal_in doubles min max text read ≡ ok number
    → IsWithin min max number
unfolding decimal_in
decimal_in-IsWithin doubles min max text none number e = absurd (cc)
decimal_in-IsWithin doubles min max text (some n) number e =
    whole_number_in-IsWithin min max (doubles.rounded n) number e

-- However an integer is bound, by the environment, by its default or by a pin, it is a whole number
-- between the bounds of its field.
pub pinned-IsWithin :
    (doubles : Doubles) (variable : Text) (default pin : Option Number) (min max : Option ℤ)
    (raw : Option Text) (number : Number)
    → (pinned pin (integer doubles variable default min max)).parse raw ≡ answers (ok number)
    → IsWithin (or_else min_safe min) (or_else max_safe max) number
unfolding integer present IsSteady IsRuled integer_in checked
pinned-IsWithin doubles variable default pin min max raw number e =
    let least = or_else min_safe min in
    let most = or_else max_safe max in
    let rule = whole_number_in least most in
    let again = λ (given value : Number) (passed : rule given ≡ ok value).
      whole_number_in-of_IsWithin least most value
        (whole_number_in-IsWithin least most given value passed) in
    let reads =
      λ (text : Text) (value : Number) (passed : integer_in doubles least most text ≡ ok value).
        whole_number_in-of_IsWithin least most value
          (decimal_in-IsWithin doubles least most text (decimal text) value passed) in
    whole_number_in-IsWithin least most number number (
      pinned-IsRuled pin (integer doubles variable default min max) again
        (present-IsRuled variable default (integer_in doubles least most) (some rule) again reads)
        raw number e)

-- The text of a whole number.
pub print_int : ℤ → Text
print_int (pos n) = print_number n
print_int (negsuc n) = 45 ∷ print_number (suc n)

unsigned-print_number : (n : ℕ) → unsigned (print_number n) ≡ some n
unfolding unsigned
unsigned-print_number n =
    rw (print_number-cons n, all-print_number n, read_digits-print_number n) refl

unsigned_first :
    (c : ℕ) (cs : Text) (n : ℕ)
    → is_digit c ≡ true
    → unsigned (c ∷ cs) ≡ some n
    → decimal (c ∷ cs) ≡ some (pos n)
unfolding decimal is_digit
unsigned_first c cs n digit read = ground (arith, digit, read)

decimal-print_number : (n : ℕ) → decimal (print_number n) ≡ some (pos n)
decimal-print_number n = elim (List-cases (print_number n)) [
  | inl e ↦ absurd (cc (sym (print_number-cons n) ∙ ap is_nil e))
  | inr (c, cs, e) ↦
      let digits = subst (λ t. all is_digit t ≡ true) e (all-print_number n) in
      subst (λ t. decimal t ≡ some (pos n)) (sym e)
        (unsigned_first c cs n (and-true (is_digit c) (all is_digit cs) digits).0
          (subst (λ t. unsigned t ≡ some n) e (unsigned-print_number n)))
]

decimal-print_int : (n : ℤ) → decimal (print_int n) ≡ some n
unfolding print_int decimal
decimal-print_int (pos n) = decimal-print_number n
decimal-print_int (negsuc n) = rw (unsigned-print_number (suc n)) refl

trim-print_int : (n : ℤ) → trim (print_int n) ≡ print_int n
unfolding print_int
trim-print_int (pos n) = trim-digits (print_number n) (all-print_number n)
trim-print_int (negsuc n) = trim-minus (print_number (suc n)) (all-print_number (suc n))

bound_text-cons :
    {T : Type 0} (read : Text → Result Reason T) (text : Text)
    → is_nil text ≡ false
    → bound_text read text ≡ read text
bound_text-cons read [] e = absurd (cc)
bound_text-cons read (c ∷ cs) e = refl

print_int-cons : (n : ℤ) → is_nil (print_int n) ≡ false
unfolding print_int
print_int-cons (pos n) = print_number-cons n
print_int-cons (negsuc n) = refl

-- A safe whole number between the bounds of an integer field, printed into the variable, is bound
-- as that number.
pub integer-print_int :
    (doubles : Doubles) (variable : Text) (default : Option Number) (min max : Option ℤ) (n : ℤ)
    → le_int min_safe n ≡ true
    → le_int n max_safe ≡ true
    → le_int (or_else min_safe min) n ≡ true
    → le_int n (or_else max_safe max) ≡ true
    → (integer doubles variable default min max).parse (some (print_int n)) ≡ answers (ok (whole n))
unfolding integer present bound integer_in decimal_in whole_number_in
integer-print_int doubles variable default min max n safe still_safe above below =
    let least = or_else min_safe min in
    let most = or_else max_safe max in
    let read = integer_in doubles least most in
    ap answers (
      rw
        (
          trim-print_int n,
          bound_text-cons read (print_int n) (print_int-cons n),
          decimal-print_int n,
          doubles.exact n safe still_safe,
          above,
          below,
        )
        refl)

-- A list read from the environment has at least as many entries as its field asks for: as many as it
-- names, or one where it names no number and has no default. Each entry is trimmed and none is empty.
pub list-entries :
    (variable : Text) (default : Option (List Text)) (min : Option ℕ) (raw : Text)
    (entries : List Text)
    → (list variable default min).parse (some raw) ≡ answers (ok entries)
    → ((asked : ℕ) → min ≡ some asked → asked ≤ length entries)
      × (min ≡ none → default ≡ none → 1 ≤ length entries)
      × All (λ entry. (trim entry ≡ entry) × (is_nil entry ≡ false)) entries
unfolding list present bound at_least entries_of
list-entries variable default min raw entries e =
    let floor = or_else (floor_of default) min in
    let (text, read) =
      bound_text-ok (λ value. at_least floor (entries_of value)) entries (trim raw)
        (answers-inj e) in
    let (enough, same) =
      if_stops-ok (ltb (length (entries_of text)) floor) _ (entries_of text) read in
    let reached : floor ≤ length entries =
      subst (λ es. floor ≤ length es) same (ground (arith, enough)) in
    (
      λ asked named. subst (λ m. or_else (floor_of default) m ≤ length entries) named reached,
      λ unnamed bare.
          subst (λ d. or_else (floor_of d) none ≤ length entries) bare
            (subst (λ m. or_else (floor_of default) m ≤ length entries) unnamed reached),
      subst (All (λ entry. (trim entry ≡ entry) × (is_nil entry ≡ false))) same
          (entries-clean (split 44 text)),
    )
  where
    entries-clean :
        (pieces : List Text)
        → All
            (λ entry. (trim entry ≡ entry) × (is_nil entry ≡ false))
            (keep (λ entry. not (is_nil entry)) (map trim pieces))
    entries-clean [] = tt
    entries-clean (piece ∷ pieces) = elim (Bool-cases (is_nil (trim piece))) [
      | inl f ↦ rw f (entries-clean pieces)
      | inr f ↦ rw f ((trim-trim piece, f), entries-clean pieces)
    ]
