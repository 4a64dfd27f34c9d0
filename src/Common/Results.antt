-- ===== src/Common/Results.antt =====
-- A computation that may stop with an error, and an asynchronous one's settled outcome.
use mathlib.Core.Path.{◌≡◌, refl}
use mathlib.Core.Logic.{◌⊎◌, inl, inr}
use mathlib.Core.Bool.{Bool, true, false}
use btravstack.Common.Tests.{if◌then◌else◌}

pub data Result {ℓ κ} (E : Type ℓ) (A : Type κ) : Type (ℓ ⊔ κ) where
  ok : A → Result E A
  fail : E → Result E A

abbrev pub guard {ℓ} : {E : Type ℓ} → Bool → E → Result E (Unit {0})
guard false refusal = fail refusal
guard true refusal = ok tt

infixl 5 ◌>>=◌ ◌>>◌
abbrev pub ◌>>=◌ {ℓ κ ι} :
    {E : Type ℓ} {A : Type κ} {B : Type ι} → Result E A → (A → Result E B) → Result E B
fail refusal >>= next = fail refusal
ok value >>= next = next value

abbrev pub ◌>>◌ {ℓ ι} : {E : Type ℓ} {B : Type ι} → Result E (Unit {0}) → Result E B → Result E B
step >> rest = step >>= λ done. rest

pub Result-cases {ℓ κ} :
    {E : Type ℓ} {A : Type κ} (m : Result E A) → ((e : E) × (m ≡ fail e)) ⊎ ((a : A) × (m ≡ ok a))
Result-cases (ok a) = inr (a, refl)
Result-cases (fail e) = inl (e, refl)

pub >>=-eq-fail {ℓ κ ι} :
    {E : Type ℓ} {A : Type κ} {B : Type ι} (m : Result E A) (f : A → Result E B) {e : E}
    → (m >>= f) ≡ fail e
    → (m ≡ fail e) ⊎ ((a : A) × (m ≡ ok a) × (f a ≡ fail e))
>>=-eq-fail (ok a) f h = inr (a, refl, h)
>>=-eq-fail (fail e) f h = inl (cc)

pub >>=-eq-ok {ℓ κ ι} :
    {E : Type ℓ} {A : Type κ} {B : Type ι} (first : Result E A) (next : A → Result E B) {end : B}
    → (first >>= next) ≡ ok end
    → (value : A) × (first ≡ ok value) × (next value ≡ ok end)
>>=-eq-ok (fail refusal) next stopped = cc
>>=-eq-ok (ok value) next ended = (value, refl, ended)

pub ok-inj {ℓ κ} : {E : Type ℓ} {A : Type κ} {a b : A} → ◌≡◌ {A = Result E A} (ok a) (ok b) → a ≡ b
ok-inj e = cc

pub if_stops-ok {ℓ κ} :
    {E : Type ℓ} {A : Type κ} (stops : Bool) (refusal : E) (a : A) {b : A}
    → ◌≡◌ {A = Result E A} (if stops then fail refusal else ok a) (ok b)
    → (stops ≡ false) × (a ≡ b)
if_stops-ok true refusal a e = absurd (cc)
if_stops-ok false refusal a e = (refl, ok-inj e)

pub if_passes-ok {ℓ κ} :
    {E : Type ℓ} {A : Type κ} (passes : Bool) (refusal : E) (a : A) {b : A}
    → ◌≡◌ {A = Result E A} (if passes then ok a else fail refusal) (ok b)
    → (passes ≡ true) × (a ≡ b)
if_passes-ok false refusal a e = absurd (cc)
if_passes-ok true refusal a e = (refl, ok-inj e)

pub fail-inj {ℓ κ} :
    {E : Type ℓ} {A : Type κ} {a b : E} → ◌≡◌ {A = Result E A} (fail a) (fail b) → a ≡ b
fail-inj e = cc
