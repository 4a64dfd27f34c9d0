-- ===== src/Outbox/Slots.antt =====
-- packages/outbox/src/relay.ts: `take`, `give` and the stop, over the slots that bound how many
-- tenants hold a claim. A loop is known by a number.
use btravstack.Common.{
  ℕ, ◌+◌, ◌-◌, ◌≡◌, ◌<◌, refl, ap, Bool, true, false, List, [], ◌∷◌, ◌++◌, length, length-append,
  if◌then◌else◌, ◌==◌, nat_eq, arith, Bool-cases, inl, inr,
}

pub record Slots : Type 0 where
  pub free : ℕ
  pub waiting : List ℕ
  pub holding : List ℕ
  pub stopping : Bool

abbrev pub create_slots : ℕ → Slots
create_slots concurrency = record {
  free = concurrency;
  waiting = [];
  holding = [];
  stopping = false;
}

unfoldable pub take_slot : ℕ → Slots → Slots
take_slot loop s =
    if s.free == 0
    then record s { waiting = s.waiting ++ loop ∷ [] }
    else record s { free = s.free - 1; holding = s.holding ++ loop ∷ [] }

-- Behind a holder that is done: the longest waiter holds its slot, or the slot is free.
abbrev pub hand_over : List ℕ → List ℕ → Slots → Slots
hand_over [] holding s = record s { free = s.free + 1; holding = holding }
hand_over (next ∷ rest) holding s = record s { waiting = rest; holding = holding ++ next ∷ [] }

-- `give` of the holder that stands between the two lists of the others.
unfoldable pub give_slot : (before after : List ℕ) → Slots → Slots
give_slot before after s = hand_over s.waiting (before ++ after) s

-- The stop answers every waiter `false`.
unfoldable pub stop_slots : Slots → Slots
stop_slots s = record s { waiting = []; stopping = true }

-- A loop takes while the relay runs, and gives back what it holds.
pub data Step : Slots → Slots → Type 0 where
  takes : (loop : ℕ) (s : Slots) → s.stopping ≡ false → Step s (take_slot loop s)
  gives :
      (loop : ℕ) (before after : List ℕ) (s : Slots)
      → s.holding ≡ before ++ loop ∷ after
      → Step s (give_slot before after s)
  stops : (s : Slots) → Step s (stop_slots s)

pub data Steps : Slots → Slots → Type 0 where
  done : (s : Slots) → Steps s s
  next : {a b c : Slots} → Steps a b → Step b c → Steps a c

-- The slots add up, and nobody waits while one is free.
pub record IsBounded (concurrency : ℕ) (s : Slots) : Type 0 where
  pub total : s.free + length s.holding ≡ concurrency
  pub busy : 0 < length s.waiting → s.free ≡ 0

hand_over-IsBounded :
    {concurrency : ℕ} (s : Slots) (before after : List ℕ) (loop : ℕ)
    → s.holding ≡ before ++ loop ∷ after
    → IsBounded concurrency s
    → (ws : List ℕ) → s.waiting ≡ ws
    → IsBounded concurrency (hand_over ws (before ++ after) s)
hand_over-IsBounded s before after loop e h [] w = record {
  total = omega (
    arith,
    h.total,
    ap (λ (xs : List ℕ). length xs) e,
    length-append before (loop ∷ after),
    length-append before after,
  );
  busy = λ k. absurd (omega (arith, k, ap (λ (xs : List ℕ). length xs) w));
}
hand_over-IsBounded s before after loop e h (v ∷ vs) w = record {
  total = omega (
    arith,
    h.total,
    ap (λ (xs : List ℕ). length xs) e,
    length-append before (loop ∷ after),
    length-append before after,
    length-append (before ++ after) (v ∷ []),
  );
  busy = λ k. h.busy (omega (arith, ap (λ (xs : List ℕ). length xs) w));
}

Step-IsBounded :
    {concurrency : ℕ} {a b : Slots} → Step a b → IsBounded concurrency a → IsBounded concurrency b
unfolding take_slot give_slot stop_slots
Step-IsBounded (takes loop s running) h = elim (Bool-cases (s.free == 0)) [
  | inl e ↦ rw (e, take_slot) (record { total = h.total; busy = λ _. ground arith })
  | inr e ↦
      rw (e, take_slot)
        (record {
          total = ground (arith, h.total, length-append s.holding (loop ∷ []));
          busy = λ k. ground (arith, h.busy k);
        })
]
Step-IsBounded (gives loop before after s e) h =
    hand_over-IsBounded s before after loop e h s.waiting refl
Step-IsBounded (stops s) h = record { total = h.total; busy = λ k. absurd (omega arith) }

-- However the tenants' loops take and give, and whenever the relay is stopped, the slots in use and
-- the free ones are always `concurrency` together, and no loop waits while a slot is free.
pub Steps-IsBounded :
    (concurrency : ℕ) {s : Slots} → Steps (create_slots concurrency) s → IsBounded concurrency s
Steps-IsBounded concurrency steps =
    go steps (record { total = omega arith; busy = λ k. absurd (omega arith) })
  where
    go : {a b : Slots} → Steps a b → IsBounded concurrency a → IsBounded concurrency b
    go (done s) h = h
    go (next steps step) h = Step-IsBounded step (go steps h)
