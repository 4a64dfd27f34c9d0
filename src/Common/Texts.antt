-- ===== src/Common/Texts.antt =====
-- JavaScript's strings as lists of UTF-16 code units, and what the code calls of them: `trim`,
-- `split` at one unit, `toLowerCase` of ASCII letters, and the printing of whole numbers.
use Prim.Native.Nat.{ℕ, zero, suc, ◌+◌, ◌-◌, ◌*◌, ◌/◌, ◌%◌, ◌≤◌, ◌<◌}
use mathlib.Core.Path.{◌≡◌, refl, ap, subst, ◌∙◌}
use mathlib.Core.Bool.{Bool, true, false, not, ◌&&◌, ◌||◌}
use mathlib.Core.Logic.{inl, inr}
use mathlib.Core.List.{List, [], ◌∷◌}
use native.Mathlib.Omega.{arith}
use btravstack.Common.Tests.{
  ltb, leb, nat_beq, nat_beq_iff, if◌then◌else◌, Bool-cases, not-true, and-true, Eq, ◌==◌, nat_eq,
}
use btravstack.Common.Lists.{all}

abbrev pub Text : Type 0
Text = List ℕ

abbrev pub text_beq : Text → Text → Bool
text_beq [] [] = true
text_beq [] (d ∷ ds) = false
text_beq (c ∷ cs) [] = false
text_beq (c ∷ cs) (d ∷ ds) = nat_beq c d && text_beq cs ds

pub text_beq-same : (cs ds : Text) → text_beq cs ds ≡ true → cs ≡ ds
text_beq-same [] [] h = refl
text_beq-same [] (d ∷ ds) h = absurd (cc)
text_beq-same (c ∷ cs) [] h = absurd (cc)
text_beq-same (c ∷ cs) (d ∷ ds) h = ground (arith, h, nat_beq_iff c d, text_beq-same cs ds)

pub text_beq_refl : (cs : Text) → text_beq cs cs ≡ true
text_beq_refl [] = refl
text_beq_refl (c ∷ cs) = ground (arith, nat_beq_iff c c, text_beq_refl cs)

instance abbrev pub text_eq : Eq Text
text_eq = record {
  beq = text_beq;
  beq_iff = λ cs ds.
      (text_beq-same cs ds, λ same. subst (λ t. text_beq cs t ≡ true) same (text_beq_refl cs));
}

-- The white space and line ends of ECMAScript.
unfoldable pub is_space : ℕ → Bool
is_space c =
    (leb 9 c && leb c 13)
    || c == 32
    || c == 160
    || c == 5760
    || (leb 8192 c && leb c 8202)
    || c == 8232
    || c == 8233
    || c == 8239
    || c == 8287
    || c == 12288
    || c == 65279

abbrev pub is_nil {ℓ} : {A : Type ℓ} → List A → Bool
is_nil [] = true
is_nil (x ∷ xs) = false

unfoldable pub trim_start : Text → Text
trim_start [] = []
trim_start (c ∷ cs) = let rest = trim_start cs in if is_space c then rest else c ∷ cs

unfoldable pub trim_end : Text → Text
trim_end [] = []
trim_end (c ∷ cs) = let rest = trim_end cs in if is_space c && is_nil rest then [] else c ∷ rest

unfoldable pub trim : Text → Text
trim cs = trim_end (trim_start cs)

abbrev pub starts_clean : Text → Bool
starts_clean [] = true
starts_clean (c ∷ cs) = not (is_space c)

trim_start-clean : (cs : Text) → starts_clean (trim_start cs) ≡ true
unfolding trim_start
trim_start-clean [] = refl
trim_start-clean (c ∷ cs) = elim (Bool-cases (is_space c)) [
  | inl e ↦ rw e (trim_start-clean cs)
  | inr e ↦ rw e (ap not e)
]

trim_start-of_clean : (cs : Text) → starts_clean cs ≡ true → trim_start cs ≡ cs
unfolding trim_start
trim_start-of_clean [] h = refl
trim_start-of_clean (c ∷ cs) h = rw (not-true (is_space c) h) refl

trim_end-clean : (cs : Text) → starts_clean cs ≡ true → starts_clean (trim_end cs) ≡ true
unfolding trim_end
trim_end-clean [] h = refl
trim_end-clean (c ∷ cs) h = rw (not-true (is_space c) h) h

trim_end-trim_end : (cs : Text) → trim_end (trim_end cs) ≡ trim_end cs
unfolding trim_end
trim_end-trim_end [] = refl
trim_end-trim_end (c ∷ cs) = elim (Bool-cases (is_space c && is_nil (trim_end cs))) [
  | inl e ↦ rw e refl
  | inr e ↦ rw (e, trim_end-trim_end cs, e) refl
]

-- Trimming twice is trimming once.
pub trim-trim : (cs : Text) → trim (trim cs) ≡ trim cs
unfolding trim
trim-trim cs =
    rw
      (trim_start-of_clean (trim_end (trim_start cs))
        (trim_end-clean (trim_start cs) (trim_start-clean cs)))
      (trim_end-trim_end (trim_start cs))

-- `text.split(separator)` at one unit: the pieces in order, at least one.
abbrev pub onto_first : ℕ → List Text → List Text
onto_first c [] = (c ∷ []) ∷ []
onto_first c (piece ∷ pieces) = (c ∷ piece) ∷ pieces

unfoldable pub split : ℕ → Text → List Text
split separator [] = [] ∷ []
split separator (c ∷ cs) =
    let pieces = split separator cs in if c == separator then [] ∷ pieces else onto_first c pieces

-- ASCII letters in lower case; no other letter becomes an ASCII letter but the Kelvin sign.
unfoldable pub lower : ℕ → ℕ
lower c = if leb 65 c && leb c 90 then c + 32 else c

unfoldable pub is_digit : ℕ → Bool
is_digit c = leb 48 c && leb c 57

-- `Number(digits)`, before rounding.
unfoldable pub read_digits : ℕ → Text → ℕ
read_digits sum [] = sum
read_digits sum (c ∷ cs) = read_digits (sum * 10 + (c - 48)) cs

-- `String(n)`: the digits of n, most significant first, before what is there; one unit of fuel for
-- each digit.
unfoldable pub digits_onto : ℕ → ℕ → Text → Text
digits_onto zero n cs = cs
digits_onto (suc fuel) n cs =
    let more = digits_onto fuel (n / 10) ((48 + n % 10) ∷ cs) in
    if ltb n 10 then (48 + n) ∷ cs else more

unfoldable pub print_number : ℕ → Text
print_number n = digits_onto (suc n) n []

ltb-of_le : (a b : ℕ) → ltb a b ≡ false → b ≤ a
ltb-of_le a b e = ground arith

read_digits-digits_onto :
    (fuel n : ℕ) (cs : Text) → n < fuel → read_digits 0 (digits_onto fuel n cs) ≡ read_digits n cs
unfolding read_digits digits_onto
read_digits-digits_onto zero n cs h = absurd (omega arith)
read_digits-digits_onto (suc fuel) n cs h = elim (Bool-cases (ltb n 10)) [
  | inl e ↦ rw e (ap (λ sum. read_digits sum cs) (omega arith))
  | inr e ↦
      let big = ltb-of_le n 10 e in
      rw e (
        read_digits-digits_onto fuel (n / 10) ((48 + n % 10) ∷ cs) (omega (arith, big))
        ∙ ap (λ sum. read_digits sum cs) (omega arith))
]

-- What is printed is read back.
pub read_digits-print_number : (n : ℕ) → read_digits 0 (print_number n) ≡ n
unfolding print_number read_digits
read_digits-print_number n = read_digits-digits_onto (suc n) n [] (omega arith)

all-digits_onto :
    (fuel n : ℕ) (cs : Text) → all is_digit cs ≡ true → all is_digit (digits_onto fuel n cs) ≡ true
unfolding digits_onto is_digit
all-digits_onto zero n cs h = h
all-digits_onto (suc fuel) n cs h = elim (Bool-cases (ltb n 10)) [
  | inl e ↦ rw e (ground (arith, h))
  | inr e ↦ rw e (all-digits_onto fuel (n / 10) ((48 + n % 10) ∷ cs) (ground (arith, h)))
]

pub all-print_number : (n : ℕ) → all is_digit (print_number n) ≡ true
unfolding print_number
all-print_number n = all-digits_onto (suc n) n [] refl

digit-not_space : (c : ℕ) → is_digit c ≡ true → is_space c ≡ false
unfolding is_digit is_space
digit-not_space c h = ground (arith, h)

trim_end-digits : (cs : Text) → all is_digit cs ≡ true → trim_end cs ≡ cs
unfolding trim_end
trim_end-digits [] h = refl
trim_end-digits (c ∷ cs) h =
    let (here, later) = and-true (is_digit c) (all is_digit cs) h in
    rw (digit-not_space c here, trim_end-digits cs later) refl

-- Trimming leaves what has no white space.
pub trim-digits : (cs : Text) → all is_digit cs ≡ true → trim cs ≡ cs
unfolding trim trim_start
trim-digits [] h = trim_end-digits [] h
trim-digits (c ∷ cs) h =
    let (here, later) = and-true (is_digit c) (all is_digit cs) h in
    rw (digit-not_space c here) (trim_end-digits (c ∷ cs) h)

-- A minus sign in front changes nothing of that.
pub trim-minus : (cs : Text) → all is_digit cs ≡ true → trim (45 ∷ cs) ≡ 45 ∷ cs
unfolding trim trim_start trim_end is_space
trim-minus cs h = rw (trim_end-digits cs h) refl

digits_onto-cons : (fuel n c : ℕ) (cs : Text) → is_nil (digits_onto fuel n (c ∷ cs)) ≡ false
unfolding digits_onto
digits_onto-cons zero n c cs = refl
digits_onto-cons (suc fuel) n c cs = elim (Bool-cases (ltb n 10)) [
  | inl e ↦ rw e refl
  | inr e ↦ rw e (digits_onto-cons fuel (n / 10) (48 + n % 10) (c ∷ cs))
]

pub print_number-cons : (n : ℕ) → is_nil (print_number n) ≡ false
unfolding print_number digits_onto
print_number-cons n = elim (Bool-cases (ltb n 10)) [
  | inl e ↦ rw e refl
  | inr e ↦ rw e (digits_onto-cons n (n / 10) (48 + n % 10) [])
]
