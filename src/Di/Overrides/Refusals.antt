-- ===== src/Di/Overrides/Refusals.antt =====
-- The overrides check refuses for its own reasons only.
use btravstack.Common.{◌≡◌, String, false, inl, inr, List, [], ◌∷◌, fail, >>=-eq-fail, arith}
use btravstack.Di.{Provider, WiringDefect, is_looping}
use btravstack.Di.Flatten.{id_of}
use btravstack.Di.Overrides.{resolve_overrides, check_overrides, overrides_of}

module _ {V E : Type 0} where
  check_overrides-not_looping :
      (given : List (Provider V E)) (seen : List String) (os : List (Provider V E))
      (e : WiringDefect)
      → check_overrides given seen os ≡ fail e
      → is_looping e ≡ false
  unfolding check_overrides
  check_overrides-not_looping given seen [] e h = cc
  check_overrides-not_looping given seen (o ∷ os) e h =
      ground (arith, check_overrides-not_looping given (id_of o ∷ seen) os e)

  pub resolve_overrides-not_looping :
      (given : List (Provider V E)) (e : WiringDefect)
      → resolve_overrides given ≡ fail e
      → is_looping e ≡ false
  unfolding resolve_overrides
  resolve_overrides-not_looping given e h =
      elim (>>=-eq-fail (check_overrides given [] (overrides_of given)) _ h) [
        | inl f ↦ check_overrides-not_looping given [] (overrides_of given) e f
        | inr (_, _, f) ↦ cc
      ]
