-- ===== src/Di/Scope/Laws.antt =====
-- What closing a scope does to its log, and registering finalisers to its list.
use btravstack.Common.{
  ℕ, ◌≡◌, refl, ap, ◌∙◌, ◌⊎◌, inl, inr, String, Bool, true, false, List, [], ◌∷◌, ◌++◌, map,
  reverse, arith,
}
use btravstack.Di.{Ran, returns, throws}
use btravstack.Di.Scope.{
  Finaliser, Scope, Event, constructs, starts, fails, uses, finalises, reports, run_all, close,
}

-- An event of the build or of the work, not of the teardown.
abbrev pub is_work : Event → Bool
is_work (finalises id) = false
is_work (reports id cause) = false
is_work _ = true

pub close-closed : (s : Scope) → s.closed ≡ true → close s ≡ s
unfolding close
close-closed s h = ground arith

pub close-shut : (s : Scope) → (close s).closed ≡ true
unfolding close
close-shut s = ground arith

pub close-log :
    (s : Scope) → s.closed ≡ false → (close s).log ≡ s.log ++ run_all (reverse s.finalisers)
unfolding close
close-log s h = ground arith

-- The finalisers that ran, by their ports, and the throws that were reported.
unfoldable pub finalised : List Event → List String
finalised [] = []
finalised (finalises id ∷ es) = id ∷ finalised es
finalised (_ ∷ es) = finalised es

pub reported : List Event → List (String × ℕ)
reported [] = []
reported (reports id cause ∷ es) = (id, cause) ∷ reported es
reported (_ ∷ es) = reported es

-- The factories that were called.
unfoldable pub constructed : List Event → List ℕ
constructed [] = []
constructed (constructs ref ∷ es) = ref ∷ constructed es
constructed (_ ∷ es) = constructed es

pub constructed-append :
    (es fs : List Event) → constructed (es ++ fs) ≡ constructed es ++ constructed fs
unfolding constructed
constructed-append [] fs = refl
constructed-append (constructs ref ∷ es) fs = ap (◌∷◌ ref) (constructed-append es fs)
constructed-append (finalises id ∷ es) fs = constructed-append es fs
constructed-append (reports id cause ∷ es) fs = constructed-append es fs
constructed-append (starts ref ∷ es) fs = constructed-append es fs
constructed-append (fails ∷ es) fs = constructed-append es fs
constructed-append (uses ∷ es) fs = constructed-append es fs

-- What the finalisers of a list throw.
pub thrown_by : List Finaliser → List (String × ℕ)
thrown_by [] = []
thrown_by (f ∷ fs) = elim f.ends [
  | returns ↦ thrown_by fs
  | throws cause ↦ (f.port_id, cause) ∷ thrown_by fs
]

finalised-append : (es fs : List Event) → finalised (es ++ fs) ≡ finalised es ++ finalised fs
unfolding finalised
finalised-append [] fs = refl
finalised-append (finalises id ∷ es) fs = ap (◌∷◌ id) (finalised-append es fs)
finalised-append (reports id cause ∷ es) fs = finalised-append es fs
finalised-append (constructs ref ∷ es) fs = finalised-append es fs
finalised-append (starts ref ∷ es) fs = finalised-append es fs
finalised-append (fails ∷ es) fs = finalised-append es fs
finalised-append (uses ∷ es) fs = finalised-append es fs

reported-append : (es fs : List Event) → reported (es ++ fs) ≡ reported es ++ reported fs
unfolding reported
reported-append [] fs = refl
reported-append (finalises id ∷ es) fs = reported-append es fs
reported-append (reports id cause ∷ es) fs = ap (◌∷◌ (id, cause)) (reported-append es fs)
reported-append (constructs ref ∷ es) fs = reported-append es fs
reported-append (starts ref ∷ es) fs = reported-append es fs
reported-append (fails ∷ es) fs = reported-append es fs
reported-append (uses ∷ es) fs = reported-append es fs

pub Ran-cases : (r : Ran) → (r ≡ returns) ⊎ ((cause : ℕ) × (r ≡ throws cause))
Ran-cases returns = inl refl
Ran-cases (throws cause) = inr (cause, refl)

finalised-run_all : (fs : List Finaliser) → finalised (run_all fs) ≡ map Finaliser.port_id fs
unfolding finalised
finalised-run_all [] = refl
finalised-run_all (f ∷ fs) = elim (Ran-cases f.ends) [
  | inl e ↦ rw e (ap (◌∷◌ f.port_id) (finalised-run_all fs))
  | inr (cause, e) ↦ rw e (ap (◌∷◌ f.port_id) (finalised-run_all fs))
]

reported-run_all : (fs : List Finaliser) → reported (run_all fs) ≡ thrown_by fs
unfolding reported thrown_by
reported-run_all [] = refl
reported-run_all (f ∷ fs) = elim (Ran-cases f.ends) [
  | inl e ↦ rw e (reported-run_all fs)
  | inr (cause, e) ↦ rw e (ap (◌∷◌ (f.port_id, cause)) (reported-run_all fs))
]

-- Closing a scope that is open runs every finaliser, the last registered first, whichever of them
-- throw, and reports each throw; closing one that is closed changes nothing.
pub close_lem :
    (s : Scope)
    → (s.closed ≡ false
        → (finalised (close s).log
            ≡ finalised s.log ++ map Finaliser.port_id (reverse s.finalisers))
          × (reported (close s).log ≡ reported s.log ++ thrown_by (reverse s.finalisers))
          × (close (close s) ≡ close s))
      × (s.closed ≡ true → close s ≡ s)
close_lem s = (
  λ h. (
    ap finalised (close-log s h)
        ∙ (finalised-append s.log (run_all (reverse s.finalisers))
            ∙ ap (◌++◌ (finalised s.log)) (finalised-run_all (reverse s.finalisers))),
    ap reported (close-log s h)
        ∙ (reported-append s.log (run_all (reverse s.finalisers))
            ∙ ap (◌++◌ (reported s.log)) (reported-run_all (reverse s.finalisers))),
    close-closed (close s) (close-shut s),
  ),
  λ h. close-closed s h,
)
