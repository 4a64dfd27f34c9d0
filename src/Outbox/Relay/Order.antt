-- ===== src/Outbox/Relay/Order.antt =====
-- What a sweep does to a tenant's pending messages.
use mathlib.Core.List.{append_assoc}
use btravstack.Common.{
  ℕ, zero, suc, ◌+◌, ◌≡◌, refl, ap, ◌∙◌, subst, String, Bool, true, false, not, ◌||◌, List, [], ◌∷◌,
  ◌++◌, keep, take, length, elem, set, has, get-set, ◌==◌, nat_eq, string_eq, arith, Bool-cases,
  inl, inr, ◌⊎◌, All, length-append,
}
use btravstack.Outbox.{OutboxMessage}
use btravstack.Outbox.Store.{
  MemoryStore, is_pending, all_pending, pending_of, begin_claim, end_claim, mark_all,
}
use btravstack.Outbox.Relay.{
  publish_in_order, sweep, swept_of, batch_size, Swept, idle, full, failed,
}

abbrev pub ids_of : List OutboxMessage → List ℕ
ids_of [] = []
ids_of (m ∷ ms) = m.id ∷ ids_of ms

-- Every message has an id of its own.
abbrev pub IsDistinct : List OutboxMessage → Type 0
IsDistinct [] = Unit
IsDistinct (m ∷ ms) = (elem m.id (ids_of ms) ≡ false) × IsDistinct ms

has-mark_all :
    (now id : ℕ) (ids : List ℕ) (published : List (ℕ × ℕ))
    → has id (mark_all now ids published) ≡ (elem id ids || has id published)
has-mark_all now id [] published = refl
has-mark_all now id (i ∷ ids) published =
    ground (arith, has-mark_all now id ids (set i now published), get-set i id now published)

elem-keep :
    (p : OutboxMessage → Bool) (id : ℕ) (ms : List OutboxMessage)
    → elem id (ids_of ms) ≡ false
    → elem id (ids_of (keep p ms)) ≡ false
elem-keep p id [] h = refl
elem-keep p id (m ∷ ms) h = ground (arith, elem-keep p id ms)

keep-IsDistinct :
    (p : OutboxMessage → Bool) (ms : List OutboxMessage) → IsDistinct ms → IsDistinct (keep p ms)
keep-IsDistinct p [] h = tt
keep-IsDistinct p (m ∷ ms) (fresh, h) = elim (Bool-cases (p m)) [
  | inl e ↦ rw e (elem-keep p m.id ms fresh, keep-IsDistinct p ms h)
  | inr e ↦ rw e (keep-IsDistinct p ms h)
]

-- What stays pending once `ids` are marked.
pending-marked :
    (published : List (ℕ × ℕ)) (now : ℕ) (ids : List ℕ) (tenant_id : String)
    (ms : List OutboxMessage)
    → keep (is_pending (mark_all now ids published) tenant_id) ms
      ≡ keep (λ m. not (elem m.id ids)) (keep (is_pending published tenant_id) ms)
pending-marked published now ids tenant_id [] = refl
pending-marked published now ids tenant_id (m ∷ ms) =
    ground
      (arith, pending-marked published now ids tenant_id ms, has-mark_all now m.id ids published)

-- A batch, cut where publishing stops: at its end or at a refused message.
record IsSent (publish : OutboxMessage → Bool) (batch : List OutboxMessage) : Type 0 where
  sent : List OutboxMessage
  left : List OutboxMessage
  whole : batch ≡ sent ++ left
  published : publish_in_order publish batch ≡ ids_of sent
  accepted : All (λ m. publish m ≡ true) sent
  -- Nothing is left, or the message that is refused comes next.
  stop :
      (left ≡ [])
      ⊎ ((m : OutboxMessage) × (ms : List OutboxMessage) × (left ≡ m ∷ ms) × (publish m ≡ false))

publish_in_order-IsSent :
    (publish : OutboxMessage → Bool) (batch : List OutboxMessage) → IsSent publish batch
unfolding publish_in_order
publish_in_order-IsSent publish [] = record {
  sent = [];
  left = [];
  whole = refl;
  published = refl;
  accepted = tt;
  stop = inl refl;
}
publish_in_order-IsSent publish (m ∷ ms) = elim (Bool-cases (publish m)) [
  | inl goes ↦
      let later = publish_in_order-IsSent publish ms in
      record {
        sent = m ∷ later.sent;
        left = later.left;
        whole = ap (◌∷◌ m) later.whole;
        published = rw goes (ap (◌∷◌ m.id) later.published);
        accepted = (goes, later.accepted);
        stop = later.stop;
      }
  | inr refused ↦ record {
    sent = [];
    left = m ∷ ms;
    whole = refl;
    published = rw refused refl;
    accepted = tt;
    stop = inr (m, ms, refl, refused);
  }
]

keep-other :
    (x : ℕ) (js : List ℕ) (ms : List OutboxMessage)
    → elem x (ids_of ms) ≡ false
    → keep (λ m. not (elem m.id (x ∷ js))) ms ≡ keep (λ m. not (elem m.id js)) ms
keep-other x js [] h = refl
keep-other x js (m ∷ ms) h = ground (arith, keep-other x js ms)

keep-nothing : (ms : List OutboxMessage) → keep (λ m. not (elem m.id [])) ms ≡ ms
keep-nothing [] = refl
keep-nothing (m ∷ ms) = ap (◌∷◌ m) (keep-nothing ms)

-- Without the ids of a prefix, the rest is left.
keep-unsent :
    (sent left : List OutboxMessage)
    → IsDistinct (sent ++ left)
    → keep (λ m. not (elem m.id (ids_of sent))) (sent ++ left) ≡ left
keep-unsent [] left h = keep-nothing left
keep-unsent (x ∷ sent) left (fresh, h) =
    ground (arith, keep-other x.id (ids_of sent) (sent ++ left) fresh, keep-unsent sent left h)

record IsTaken (n : ℕ) (xs : List OutboxMessage) : Type 0 where
  rest : List OutboxMessage
  whole : xs ≡ take n xs ++ rest
  short : (length (take n xs) ≡ n) ⊎ (rest ≡ [])

IsTaken-of : (n : ℕ) (xs : List OutboxMessage) → IsTaken n xs
IsTaken-of zero xs = record { rest = xs; whole = refl; short = inl refl }
IsTaken-of (suc n) [] = record { rest = []; whole = refl; short = inr refl }
IsTaken-of (suc n) (x ∷ xs) =
    let t = IsTaken-of n xs in
    record {
      rest = t.rest;
      whole = ap (◌∷◌ x) t.whole;
      short = elim t.short [ inl e ↦ inl (ap suc e) | inr e ↦ inr e ];
    }

length-ids_of : (ms : List OutboxMessage) → length (ids_of ms) ≡ length ms
length-ids_of [] = refl
length-ids_of (m ∷ ms) = ap suc (length-ids_of ms)

module _ (publish : OutboxMessage → Bool) (tenant_id : String) (now : ℕ) where
  -- What a sweep answers and leaves.
  pub record IsSwept (s : MemoryStore) (r : Swept × MemoryStore) : Type 0 where
    pub sent : List OutboxMessage
    pub left : List OutboxMessage
    pub before : all_pending s tenant_id ≡ sent ++ left
    pub after : all_pending r.1 tenant_id ≡ left
    pub accepted : All (λ m. publish m ≡ true) sent
    pub kept : r.1.messages ≡ s.messages
    pub answer :
        ((r.0 ≡ failed)
          × ((m : OutboxMessage) × (ms : List OutboxMessage) × (left ≡ m ∷ ms)
              × (publish m ≡ false)))
        ⊎ (((r.0 ≡ full) × (length sent ≡ batch_size)) ⊎ ((r.0 ≡ idle) × (left ≡ [])))

  sent-answer :
      (pending : List OutboxMessage) (t : IsTaken batch_size pending)
      (b : IsSent publish (take batch_size pending)) (answer : Swept)
      → answer
        ≡ swept_of publish
            (take batch_size pending)
            (publish_in_order publish (take batch_size pending))
      → ((answer ≡ failed)
          × ((m : OutboxMessage) × (ms : List OutboxMessage) × (b.left ++ t.rest ≡ m ∷ ms)
              × (publish m ≡ false)))
        ⊎ (((answer ≡ full) × (length b.sent ≡ batch_size))
            ⊎ ((answer ≡ idle) × (b.left ++ t.rest ≡ [])))
  sent-answer pending t b answer e =
      let sizes : length (take batch_size pending) ≡ length b.sent + length b.left =
        ap (λ (xs : List OutboxMessage). length xs) b.whole ∙ length-append b.sent b.left in
      let out : length (publish_in_order publish (take batch_size pending)) ≡ length b.sent =
        ap (λ (xs : List ℕ). length xs) b.published ∙ length-ids_of b.sent in
      elim b.stop [
        | inr (m, ms, l, refused) ↦
            let more : length b.left ≡ suc (length ms) =
              ap (λ (xs : List OutboxMessage). length xs) l in
            inl (
              ground (arith, e, sizes, out, more),
              (m, ms ++ t.rest, ap (λ xs. xs ++ t.rest) l, refused),
            )
        | inl l ↦
            let none_left : length b.left ≡ 0 = ap (λ (xs : List OutboxMessage). length xs) l in
            elim (Bool-cases (length (take batch_size pending) == batch_size)) [
              | inl whole ↦
                  inr (
                    inl
                      (ground (arith, e, sizes, out, none_left), ground (arith, sizes, none_left)))
              | inr part ↦ inr (
                  inr (
                    ground (arith, e, sizes, out, none_left),
                    ap (λ xs. xs ++ t.rest) l
                        ∙ elim t.short [ inl k ↦ absurd (ground arith) | inr k ↦ k ],
                  ))
            ]
      ]

  -- A sweep of a tenant that nobody has claimed, over messages with ids of their own: it publishes,
  -- in outbox order, a first part of the tenant's pending messages, all accepted; exactly the rest is
  -- pending behind it, and no message is lost. It answers `failed` only with a refused message next
  -- in line, `full` only after a whole batch, and `idle` only if nothing is pending any more.
  pub sweep-IsSwept :
      (s : MemoryStore)
      → IsDistinct s.messages
      → elem tenant_id s.claimed ≡ false
      → IsSwept s (sweep publish tenant_id now s)
  unfolding sweep begin_claim end_claim pending_of
  sweep-IsSwept s d unclaimed =
      let pending = all_pending s tenant_id in
      let t = IsTaken-of batch_size pending in
      let b = publish_in_order-IsSent publish (take batch_size pending) in
      let before : pending ≡ b.sent ++ (b.left ++ t.rest) =
        t.whole ∙ ap (λ xs. xs ++ t.rest) b.whole ∙ append_assoc b.sent b.left t.rest in
      rw unclaimed (record {
        sent = b.sent;
        left = b.left ++ t.rest;
        before = before;
        after =
            pending-marked s.published now (publish_in_order publish (take batch_size pending))
              tenant_id s.messages
            ∙ ap (λ js. keep (λ m. not (elem m.id js)) pending) b.published
            ∙ ap (keep (λ m. not (elem m.id (ids_of b.sent)))) before
            ∙ keep-unsent b.sent (b.left ++ t.rest) (
                subst IsDistinct before
                  (keep-IsDistinct (is_pending s.published tenant_id) s.messages d));
        accepted = b.accepted;
        kept = refl;
        answer = sent-answer pending t b _ refl;
      })
