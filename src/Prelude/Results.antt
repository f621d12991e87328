-- ===== src/Prelude/Results.antt =====
-- Fallible code: `Result` with its monad, and the same notation for `Option`.
use image_resizer.Prelude.Tests.{if◌then◌else◌}
use mathlib.Core.Path.{◌≡◌, refl}
use mathlib.Core.Bool.{Bool, true, false}
use mathlib.Core.Logic.{◌⊎◌, inl, inr}
use mathlib.Core.Option.{Option, none, some}

pub data Result (E A : Type 0) : Type 0 where
  ok : A → Result E A
  err : E → Result E A

module _ {E : Type 0} where
  infixl 5 ◌>>=◌ ◌>>◌
  abbrev pub ◌>>=◌ : {A B : Type 0} → Result E A → (A → Result E B) → Result E B
  ok value >>= next = next value
  err why >>= next = err why

  abbrev pub ◌>>◌ : {B : Type 0} → Result E (Unit {0}) → Result E B → Result E B
  m >> k = m >>= λ _. k

  -- An early `return Err(e)` unless the test holds.
  abbrev pub guard : Bool → E → Result E (Unit {0})
  guard true e = ok tt
  guard false e = err e

  -- `Option::ok_or`.
  abbrev pub ok_or : {A : Type 0} → Option A → E → Result E A
  ok_or none e = err e
  ok_or (some a) e = ok a

  -- What a chain that succeeds went through.
  pub >>=-eq-ok :
      {A B : Type 0} (first : Result E A) (then_do : A → Result E B) {last : B}
      → (first >>= then_do) ≡ ok last
      → (mid : A) × (first ≡ ok mid) × (then_do mid ≡ ok last)
  >>=-eq-ok (ok mid) then_do e = (mid, refl, e)
  >>=-eq-ok (err x) then_do e = cc

  pub guard-eq-ok :
      {A : Type 0} (b : Bool) (e : E) (rest : Result E A) {last : A}
      → (guard b e >> rest) ≡ ok last
      → (b ≡ true) × (rest ≡ ok last)
  guard-eq-ok true e rest h = (refl, h)
  guard-eq-ok false e rest h = cc

  pub Result-cases :
      {A : Type 0} (m : Result E A) → ((a : A) × (m ≡ ok a)) ⊎ ((e : E) × (m ≡ err e))
  Result-cases (ok a) = inl (a, refl)
  Result-cases (err e) = inr (e, refl)

-- `Option::map`, `is_some` and `unwrap_or`.
abbrev pub map_option : {A B : Type 0} → (A → B) → Option A → Option B
map_option f none = none
map_option f (some a) = some (f a)

abbrev pub is_some : {A : Type 0} → Option A → Bool
is_some none = false
is_some (some _) = true

abbrev pub unwrap_or : {A : Type 0} → Option A → A → A
unwrap_or none d = d
unwrap_or (some a) d = a

-- `?` on an `Option`.
abbrev pub bind? {ℓ κ} : {A : Type ℓ} {B : Type κ} → Option A → (A → Option B) → Option B
bind? none f = none
bind? (some a) f = f a

module _ {E : Type 0} where
  -- A success satisfies `P`.
  abbrev pub AllOk : {A : Type 0} → (A → Type 0) → Result E A → Type 0
  AllOk P (ok a) = P a
  AllOk P (err e) = Unit

  pub >>=-AllOk :
      {A B : Type 0} (P : A → Type 0) (Q : B → Type 0) (m : Result E A) (f : A → Result E B)
      → AllOk P m
      → ((a : A) → P a → AllOk Q (f a))
      → AllOk Q (m >>= f)
  >>=-AllOk P Q (ok a) f h k = k a h
  >>=-AllOk P Q (err e) f h k = tt

  -- Where nothing is known of the first result.
  pub >>=-AllOk_any :
      {A B : Type 0} (Q : B → Type 0) (m : Result E A) (f : A → Result E B)
      → ((a : A) → AllOk Q (f a))
      → AllOk Q (m >>= f)
  >>=-AllOk_any Q (ok a) f k = k a
  >>=-AllOk_any Q (err e) f k = tt

  pub AllOk_of_ok :
      {A : Type 0} (P : A → Type 0) (m : Result E A) (a : A) → AllOk P m → m ≡ ok a → P a
  AllOk_of_ok P m a h e = rw e at h

  pub AllOk-trivial : {A : Type 0} (m : Result E A) → AllOk (λ _. Unit {0}) m
  AllOk-trivial (ok a) = tt
  AllOk-trivial (err e) = tt

  -- Both branches of a test.
  pub if-AllOk :
      {A : Type 0} (P : A → Type 0) (b : Bool) (x y : Result E A)
      → AllOk P x
      → AllOk P y
      → AllOk P (if b then x else y)
  if-AllOk P true x y h k = h
  if-AllOk P false x y h k = k

  pub guard-AllOk :
      {A : Type 0} (P : A → Type 0) (b : Bool) (e : E) (rest : Result E A)
      → AllOk P rest
      → AllOk P (guard b e >> rest)
  guard-AllOk P true e rest h = h
  guard-AllOk P false e rest h = tt
