-- ===== src/Core/Trace.antt =====
-- packages/core/src/runtime.ts: the trace id of a W3C `traceparent` header. A text is its codes, and
-- the header is trimmed already.
use btravstack.Common.{
  ℕ, zero, suc, Bool, true, false, not, ◌&&◌, ◌||◌, Option, none, some, List, [], ◌∷◌, all, leb,
  elem, if◌then◌else◌, ◌==◌, nat_eq,
}

infixl 1 ◌>>=◌
abbrev ◌>>=◌ : {A B : Type 0} → Option A → (A → Option B) → Option B
none >>= f = none
some a >>= f = f a

abbrev pub Text : Type 0
Text = List ℕ

abbrev pub is_hex : ℕ → Bool
is_hex c = (leb 48 c && leb c 57) || (leb 97 c && leb c 102)

abbrev pub push : ℕ → Option (Text × Text) → Option (Text × Text)
push c none = none
push c (some (group, rest)) = some (c ∷ group, rest)

-- A group of so many hex digits, and the text behind it.
pub take_hex : ℕ → Text → Option (Text × Text)
take_hex zero text = some ([], text)
take_hex (suc n) [] = none
take_hex (suc n) (c ∷ text) = let rest = take_hex n text in if is_hex c then push c rest else none

abbrev pub skip_dash : Text → Option Text
skip_dash [] = none
skip_dash (c ∷ text) = if c == 45 then some text else none

-- A group, and the dash behind it.
pub group_dash : ℕ → Text → Option (Text × Text)
group_dash n text = do
  (group, rest) ← take_hex n text
  behind ← skip_dash rest
  some (group, behind)

abbrev is_line_end : ℕ → Bool
is_line_end c = elem c (10 ∷ 13 ∷ 8232 ∷ 8233 ∷ [])

abbrev pub is_zeros : Text → Bool
is_zeros text = all (λ d. d == 48) text

abbrev extra_is_fine : Text → Text → Bool
extra_is_fine version [] = true
extra_is_fine version (c ∷ extra) =
    (c == 45) && (all (λ d. not (is_line_end d)) extra && not (is_zeros version))

abbrev pub is_reserved : Text → Bool
is_reserved text = all (λ d. d == 102) text

abbrev is_trace : (version trace_id parent_id extra : Text) → Bool
is_trace version trace_id parent_id extra =
    not (is_reserved version)
    && (extra_is_fine version extra && (not (is_zeros trace_id) && not (is_zeros parent_id)))

abbrev when : Bool → Text → Option Text
when true text = some text
when false text = none

trace_id_of_traceparent : Text → Option Text
trace_id_of_traceparent header = do
  (version, behind_version) ← group_dash 2 header
  (trace_id, behind_trace) ← group_dash 32 behind_version
  (parent_id, behind_parent) ← group_dash 16 behind_trace
  (flags, extra) ← take_hex 2 behind_parent
  when (is_trace version trace_id parent_id extra) trace_id
