-- ===== src/Di/Context.antt =====
-- packages/di/src/context.ts: the services built so far, by port id.
pub mod Laws
use btravstack.Common.{
  String, Bool, Option, none, some, List, [], ◌∷◌, ◌++◌, map, Result, ok, fail, get, set,
  if◌then◌else◌, string_eq, true,
}
use btravstack.Di.{Port, Held, one, members}

-- The backing map; `entries` keeps it off the object that the public sees.
abbrev pub Context : Type 0 → Type 0
Context V = List (String × Held V)

module _ {V : Type 0} where
  -- A port that nothing registered is empty if it is a set port, and missing otherwise.
  absent : Port → Option (Held V)
  absent port = if port.many then some (members []) else none

  -- `get`; `none` is the throw for a port with no service.
  unfoldable pub lookup : Context V → Port → Option (Held V)
  unfolding absent
  lookup ctx port = elim (get port.port_id ctx) [ none ↦ absent port | some held ↦ some held ]

  abbrev pub members_of : Option (Held V) → List V
  members_of none = []
  members_of (some (one v)) = []
  members_of (some (members vs)) = vs

  pub unsafe_add : Context V → Port → Held V → Context V
  unsafe_add ctx port held = set port.port_id held ctx

  pub unsafe_keys : Context V → List String
  unsafe_keys ctx = map (λ entry. entry.0) ctx

  -- A member is appended to what its port holds; an ordinary service stands alone.
  pub hold : Context V → Port → V → Held V
  hold ctx port service =
      if port.many then members (members_of (get port.port_id ctx) ++ service ∷ []) else one service

  pub put_service : Context V → Port → V → Context V
  put_service ctx port service = set port.port_id (hold ctx port service) ctx

  -- The loop of `unsafeAddAll`.
  pub unsafe_add_all : Context V → List (Port × V) → Context V
  unsafe_add_all ctx [] = ctx
  unsafe_add_all ctx ((port, service) ∷ built) = unsafe_add_all (put_service ctx port service) built
