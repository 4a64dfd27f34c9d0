-- ===== src/Tests/Stores.antt =====
-- packages/outbox, cache and storage: a store of two messages, slots, a cache and an object.
use btravstack.Common.{
  all, arith, ℕ, zero, suc, ◌==◌, ◌≡◌, refl, ◌⊎◌, String, Bool, true, false, none, some, List, [],
  ◌∷◌, ok, elem, nat_eq, string_eq, if◌then◌else◌,
}
use btravstack.Outbox.{OutboxMessage}
use btravstack.Outbox.Store.{MemoryStore, OutboxAppend, append, memory_outbox_store}
use btravstack.Outbox.Relay.{sweep}
use btravstack.Outbox.Relay.Order.{IsDistinct, IsSwept, sweep-IsSwept}
use btravstack.Outbox.Slots.{
  Slots, create_slots, take_slot, give_slot, takes, gives, Steps, done, next, IsBounded,
  Steps-IsBounded,
}
use btravstack.Cache.Refinement.{Op, find, load, call_all, ideal_all, call_all-refines}
use btravstack.Config.{whole, pos}
use btravstack.Storage.{is_token, is_sha256, Bytes, WriteOptions, Objects, put}
use btravstack.Storage.Objects.{IsPut, put-read}

abbrev placed : OutboxAppend
placed = record {
  tenant_id = "acme";
  kind = "OrderPlaced";
  subject_id = "o1";
  payload = none;
  occurred_at = none;
}

abbrev two_messages : MemoryStore
two_messages = append placed 20 (append placed 10 memory_outbox_store)

abbrev accepts_first : OutboxMessage → Bool
accepts_first m = if m.id == 1 then true else false

distinct_lem : IsDistinct two_messages.messages
unfolding append
distinct_lem = (refl, (refl, tt))

unclaimed_lem : elem "acme" two_messages.claimed ≡ false
unfolding append
unclaimed_lem = refl

sweep-IsSwept_example :
    IsSwept accepts_first "acme" 30 two_messages (sweep accepts_first "acme" 30 two_messages)
sweep-IsSwept_example =
    sweep-IsSwept accepts_first "acme" 30 two_messages distinct_lem unclaimed_lem

abbrev one_slot : Slots
one_slot = take_slot 8 (take_slot 7 (create_slots 1))

held_lem : one_slot.holding ≡ 7 ∷ []
unfolding take_slot
held_lem = refl

running_lem : (take_slot 7 (create_slots 1)).stopping ≡ false
unfolding take_slot
running_lem = refl

abbrev handed_over : Slots
handed_over = give_slot [] [] one_slot

slot-Steps : Steps (create_slots 1) handed_over
slot-Steps =
    next (next (next (done _) (takes 7 _ refl)) (takes 8 _ running_lem))
      (gives 7 [] [] one_slot held_lem)

Steps-IsBounded_example : IsBounded 1 handed_over
Steps-IsBounded_example = Steps-IsBounded 1 slot-Steps

-- A value loaded for 10 ms, found and then run out.
abbrev short_calls : List (Op ℕ ℕ × ℕ)
short_calls = (load "k" (ok 5) (some (whole (pos 10))), 3) ∷ (find "k", 12) ∷ (find "k", 13) ∷ []

call_all-refines_example : call_all short_calls [] ≡ ideal_all short_calls (λ key. none)
call_all-refines_example =
    call_all-refines 3 short_calls (omega arith, (omega arith, (omega arith, tt)))

-- A stand-in for the digest: 64 times the character `a`, whatever the bytes.
abbrev letters : ℕ → Bytes
letters zero = []
letters (suc n) = 97 ∷ letters n

abbrev digest : Bytes → Bytes
digest bytes = letters 64

abbrev options : WriteOptions
options = record { content_type = "text/plain"; sha256 = some (letters 64); metadata = [] }

abbrev no_objects : Objects
no_objects = []

put-read_example :
    ((after : Objects)
      → put digest "k" (1 ∷ []) options no_objects ≡ ok after
      → IsPut digest "k" (1 ∷ []) options no_objects after)
    × (all {A = Bytes × String} (λ x. is_token x.0) options.metadata ≡ true
        → (options.sha256 ≡ none)
          ⊎ ((options.sha256 ≡ some (digest (1 ∷ []))) × (is_sha256 (digest (1 ∷ [])) ≡ true))
        → (after : Objects) × (put digest "k" (1 ∷ []) options no_objects ≡ ok after))
put-read_example = put-read digest "k" (1 ∷ []) options no_objects
