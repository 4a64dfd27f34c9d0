-- ===== src/Tests/Settings.antt =====
-- Configuration at concrete inputs.
use btravstack.Common.{
  ℕ, Option, ◌≡◌, refl, none, some, List, [], ◌∷◌, Text, ok, text_eq, split, trim, trim_start,
  trim_end, is_space, read_digits, is_digit, ◌≤◌, All, length, is_nil, false,
}
use btravstack.Config.{pos, negsuc, whole, Doubles, answers}
use btravstack.Config.Fields.{
  port, integer, list, pinned, present, bound, integer_in, decimal_in, decimal, unsigned,
  whole_number_in, entries_of, at_least,
}
use btravstack.Config.Fields.Laws.{
  IsWithin, pinned-IsWithin, integer-print_int, print_int, list-entries,
}
use btravstack.Config.Schemas.{IsReported, validate-IsReported}

abbrev exact_doubles : Doubles
exact_doubles = record { rounded = λ n. whole n; exact = λ n above below. refl }

-- PORT
abbrev port_name : Text
port_name = 80 ∷ 79 ∷ 82 ∷ 84 ∷ []

-- " 8080 "
abbrev eighty_eighty : Text
eighty_eighty = 32 ∷ 56 ∷ 48 ∷ 56 ∷ 48 ∷ 32 ∷ []

port_bound :
    (pinned none (integer exact_doubles port_name none (some (pos 0)) (some (pos 65535)))).parse
      (some eighty_eighty)
    ≡ answers (ok (whole (pos 8080)))
unfolding pinned integer present bound integer_in decimal_in decimal unsigned whole_number_in trim
    trim_start trim_end is_space read_digits is_digit
port_bound = refl

pinned-IsWithin_example : IsWithin (pos 0) (pos 65535) (whole (pos 8080))
pinned-IsWithin_example =
    pinned-IsWithin exact_doubles port_name none none (some (pos 0)) (some (pos 65535))
      (some eighty_eighty) (whole (pos 8080)) port_bound

integer-print_int_example :
    (integer exact_doubles port_name none (some (negsuc 9)) none).parse
      (some (print_int (negsuc 6)))
    ≡ answers (ok (whole (negsuc 6)))
integer-print_int_example =
    integer-print_int exact_doubles port_name none (some (negsuc 9)) none (negsuc 6) refl refl refl
      refl

-- "a, b,"
list_bound :
    (list port_name none (some 1)).parse (some (97 ∷ 44 ∷ 32 ∷ 98 ∷ 44 ∷ []))
    ≡ answers (ok ((97 ∷ []) ∷ (98 ∷ []) ∷ []))
unfolding list present bound entries_of at_least split trim trim_start trim_end is_space
list_bound = refl

abbrev two_entries : List Text
two_entries = (97 ∷ []) ∷ (98 ∷ []) ∷ []

list-entries_example :
    ((asked : ℕ) → some 1 ≡ some asked → asked ≤ length two_entries)
    × (◌≡◌ {A = Option ℕ} (some 1) none
        → ◌≡◌ {A = Option (List Text)} none none
        → 1 ≤ length two_entries)
    × All (λ entry. (trim entry ≡ entry) × (is_nil entry ≡ false)) two_entries
list-entries_example =
    list-entries port_name none (some 1) (97 ∷ 44 ∷ 32 ∷ 98 ∷ 44 ∷ []) two_entries list_bound

validate-IsReported_example :
    IsReported (("port", port exact_doubles port_name none) ∷ []) ((port_name, eighty_eighty) ∷ [])
validate-IsReported_example =
    validate-IsReported (("port", port exact_doubles port_name none) ∷ [])
      ((port_name, eighty_eighty) ∷ [])
