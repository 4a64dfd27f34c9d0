-- ===== src/Di/Context/Laws.antt =====
-- Which ports a context resolves, and what a set port holds.
use mathlib.Core.List.{append_assoc, append-nil}
use btravstack.Common.{
  ◌≡◌, refl, sym, ap, ◌∙◌, String, true, false, ◌||◌, List, [], ◌∷◌, ◌++◌, get, has, get-set,
  is_some, if◌then◌else◌, ◌==◌, string_eq, any, elem, arith, Bool-cases, inl, inr, beq_refl,
  eq_of_beq,
}
use btravstack.Di.{Port, members}
use btravstack.Di.Context.{
  Context, lookup, hold, members_of, put_service, unsafe_add_all, unsafe_keys,
}

module _ {V : Type 0} where
  has-put_service :
      (id : String) (port : Port) (v : V) (ctx : Context V)
      → has id (put_service ctx port v) ≡ ((port.port_id == id) || has id ctx)
  unfolding put_service
  has-put_service id port v ctx = ground (arith, get-set port.port_id id (hold ctx port v) ctx)

  -- A port resolves after a level exactly if it did before or the level built it.
  pub has-unsafe_add_all :
      (id : String) (built : List (Port × V)) (ctx : Context V)
      → has id (unsafe_add_all ctx built) ≡ (any (λ b. b.0.port_id == id) built || has id ctx)
  unfolding unsafe_add_all
  has-unsafe_add_all id [] ctx = refl
  has-unsafe_add_all id ((port, v) ∷ built) ctx =
      ground
        (arith, has-unsafe_add_all id built (put_service ctx port v), has-put_service id port v ctx)

  pub has-keys : (id : String) (ctx : Context V) → has id ctx ≡ elem id (unsafe_keys ctx)
  unfolding get unsafe_keys
  has-keys id [] = refl
  has-keys id ((j, v) ∷ ctx) = ground (arith, has-keys id ctx)

  pub is_some-lookup :
      (ctx : Context V) (p : Port) → has p.port_id ctx ≡ true → is_some (lookup ctx p) ≡ true
  unfolding lookup
  is_some-lookup ctx p h = ground arith

  -- What a level contributes to a set port, in order.
  abbrev pub contributions : String → List (Port × V) → List V
  contributions id [] = []
  contributions id ((port, v) ∷ built) =
      if port.port_id == id then v ∷ contributions id built else contributions id built

  abbrev AllMany : String → List (Port × V) → Type 0
  AllMany id [] = Unit
  AllMany id ((port, v) ∷ built) = (port.port_id ≡ id → port.many ≡ true) × AllMany id built

  hold_many :
      (ctx : Context V) (port : Port) (v : V)
      → port.many ≡ true
      → hold ctx port v ≡ members (members_of (get port.port_id ctx) ++ v ∷ [])
  unfolding hold
  hold_many ctx port v h = ground arith

  members-put_same :
      (id : String) (port : Port) (v : V) (ctx : Context V)
      → (port.port_id == id) ≡ true
      → port.many ≡ true
      → members_of (get id (put_service ctx port v)) ≡ members_of (get id ctx) ++ v ∷ []
  unfolding put_service
  members-put_same id port v ctx same many =
      let e = eq_of_beq port.port_id id same in
      rw
        (
          ← e,
          get-set port.port_id port.port_id (hold ctx port v) ctx,
          beq_refl port.port_id,
          hold_many ctx port v many,
        )
        refl

  get-put_other :
      (id : String) (port : Port) (v : V) (ctx : Context V)
      → (port.port_id == id) ≡ false
      → get id (put_service ctx port v) ≡ get id ctx
  unfolding put_service
  get-put_other id port v ctx other = get-set port.port_id id _ ctx ∙ rw other refl

  -- If all that a level builds for a port are members, the port then holds what it held before,
  -- followed by every contribution, in declaration order: none is overwritten.
  pub members-unsafe_add_all :
      (id : String) (built : List (Port × V)) (ctx : Context V)
      → AllMany id built
      → members_of (get id (unsafe_add_all ctx built))
        ≡ members_of (get id ctx) ++ contributions id built
  unfolding unsafe_add_all
  members-unsafe_add_all id [] ctx h = sym (append-nil _)
  members-unsafe_add_all id ((port, v) ∷ built) ctx (many, h) =
      members-unsafe_add_all id built (put_service ctx port v) h
      ∙ (elim (Bool-cases (port.port_id == id)) [
        | inl same ↦ rw same (
            ap (λ vs. vs ++ contributions id built)
              (members-put_same id port v ctx same (many (eq_of_beq _ _ same)))
            ∙ append_assoc _ (v ∷ []) (contributions id built))
        | inr other ↦ rw other (
            ap (λ held. members_of held ++ contributions id built)
              (get-put_other id port v ctx other))
      ])
