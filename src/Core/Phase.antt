-- ===== src/Core/Phase.antt =====
-- packages/core/src/phase.ts: the tracker, which only moves forward.
use btravstack.Common.{
  ℕ, ◌≡◌, ◌<◌, refl, Bool, true, false, List, [], ◌∷◌, ◌++◌, leb, leb→lt, if◌then◌else◌, arith,
  Bool-cases, inl, inr,
}

pub data Phase : Type 0 where
  building starting serving draining stopping exited : Phase

-- `ORDER.indexOf(phase)`.
abbrev pub rank : Phase → ℕ
rank building = 0
rank starting = 1
rank serving = 2
rank draining = 3
rank stopping = 4
rank exited = 5

-- The closed-over phase, and what `onChange` was told, in order.
pub record PhaseTracker : Type 0 where
  pub current : Phase
  pub changes : List Phase

abbrev pub create_phase_tracker : PhaseTracker
create_phase_tracker = record { current = building; changes = [] }

unfoldable pub advance_to : Phase → PhaseTracker → Bool × PhaseTracker
advance_to next t =
    if leb (rank next) (rank t.current)
    then (false, t)
    else (true, record { current = next; changes = t.changes ++ next ∷ [] })

unfoldable pub advance_all : List Phase → PhaseTracker → PhaseTracker
advance_all [] t = t
advance_all (p ∷ ps) t = advance_all ps (advance_to p t).1

-- Each phase told is behind the one before.
abbrev pub IsRising : ℕ → List Phase → Type 0
IsRising low [] = Unit
IsRising low (p ∷ ps) = (low < rank p) × IsRising (rank p) ps

abbrev pub top : ℕ → List Phase → ℕ
top low [] = low
top low (p ∷ ps) = top (rank p) ps

pub IsRising-snoc :
    (low : ℕ) (ps : List Phase) (q : Phase)
    → IsRising low ps
    → top low ps < rank q
    → IsRising low (ps ++ q ∷ [])
IsRising-snoc low [] q h k = (k, tt)
IsRising-snoc low (p ∷ ps) q (h, r) k = (h, IsRising-snoc (rank p) ps q r k)

pub top-snoc : (low : ℕ) (ps : List Phase) (q : Phase) → top low (ps ++ q ∷ []) ≡ rank q
top-snoc low [] q = refl
top-snoc low (p ∷ ps) q = top-snoc (rank p) ps q

-- The listener was told rising phases, the last the current one.
pub record IsTracking (t : PhaseTracker) : Type 0 where
  pub rising : IsRising 0 t.changes
  pub latest : top 0 t.changes ≡ rank t.current

advance_to-IsTracking :
    (p : Phase) (t : PhaseTracker) → IsTracking t → IsTracking (advance_to p t).1
unfolding advance_to
advance_to-IsTracking p t h = elim (Bool-cases (leb (rank p) (rank t.current))) [
  | inl e ↦ rw (e, advance_to) h
  | inr e ↦
      rw (e, advance_to)
        (record {
          rising =
              IsRising-snoc 0 t.changes p h.rising
                (ground (arith, h.latest, leb→lt (rank p) (rank t.current) e));
          latest = top-snoc 0 t.changes p;
        })
]

advance_all-IsTracking :
    (ps : List Phase) (t : PhaseTracker) → IsTracking t → IsTracking (advance_all ps t)
unfolding advance_all
advance_all-IsTracking [] t h = h
advance_all-IsTracking (p ∷ ps) t h =
    advance_all-IsTracking ps (advance_to p t).1 (advance_to-IsTracking p t h)

-- Whatever phases a tracker is asked to move to, and in whatever order, its listener hears a
-- strictly rising sequence that ends at the current phase.
pub phases-rise : (ps : List Phase) → IsTracking (advance_all ps create_phase_tracker)
phases-rise ps =
    advance_all-IsTracking ps create_phase_tracker (record { rising = tt; latest = refl })
