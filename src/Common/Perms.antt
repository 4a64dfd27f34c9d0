-- ===== src/Common/Perms.antt =====
-- Tests on all members of a list, whatever their order.
use mathlib.Core.Path.{◌≡◌, refl, ap, ◌∙◌}
use mathlib.Core.Bool.{Bool, true}
use mathlib.Core.Logic.{∥∥₁_elim}
use mathlib.Core.List.{List, [], ◌∷◌, Perm, Permᴰ}
use native.Mathlib.Omega.{arith}
use btravstack.Common.Lists.{all, All}

module _ {ℓ} {A : Type ℓ} (p : A → Bool) where
  all-permᴰ : {xs ys : List A} → Permᴰ xs ys → all p xs ≡ all p ys
  all-permᴰ Permᴰ.nil = refl
  all-permᴰ (Permᴰ.cons e d) = ground (arith, ap p e, all-permᴰ d)
  all-permᴰ (Permᴰ.swap e₁ e₂) = ground (arith, ap p e₁, ap p e₂)
  all-permᴰ (Permᴰ.trans d₁ d₂) = all-permᴰ d₁ ∙ all-permᴰ d₂

  pub all-perm : {xs ys : List A} → Perm xs ys → all p xs ≡ all p ys
  all-perm d = ∥∥₁_elim d (hlevel) all-permᴰ

  pub all_of_All : (xs : List A) → All (λ x. p x ≡ true) xs → all p xs ≡ true
  all_of_All [] h = refl
  all_of_All (x ∷ xs) (here, later) = ground (arith, all_of_All xs later)
