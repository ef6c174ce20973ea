-- ===== src/PluralForms/Grammar/Outcome.antt =====
-- Postconditions on a result of gettext/pluralforms/parser.go: a run that fails meets each, and a run
-- that exhausts its fuel meets none.
use sadbox.Prelude.{◌≡◌, refl, subst, ◌≢◌, Bool, true, false, if◌then◌else◌}
use sadbox.PluralForms.Operators.{Result, ok, failed, out_of_fuel, bind}

abbrev pub Meets {ℓ} : {A : Type ℓ} → (A → Type 0) → Result A → Type 0
Meets P (ok a) = P a
Meets P (failed e) = Unit
Meets P out_of_fuel = ⊥

module _ {ℓ} {A : Type ℓ} (P : A → Type 0) where
  pub Meets-bind {κ} :
      {B : Type κ} (Q : B → Type 0) (r : Result A) (f : A → Result B)
      → Meets P r
      → ((a : A) → r ≡ ok a → P a → Meets Q (f a))
      → Meets Q (bind r f)
  Meets-bind Q (ok a) f h k = k a refl h
  Meets-bind Q (failed e) f h k = tt
  Meets-bind Q out_of_fuel f h k = absurd h

  pub Meets-map : (Q : A → Type 0) (r : Result A) → ((a : A) → P a → Q a) → Meets P r → Meets Q r
  Meets-map Q (ok a) k h = k a h
  Meets-map Q (failed e) k h = tt
  Meets-map Q out_of_fuel k h = absurd h

  pub Meets-if :
      (b : Bool) (x y : Result A)
      → (b ≡ true → Meets P x)
      → (b ≡ false → Meets P y)
      → Meets P (if b then x else y)
  Meets-if true x y hx hy = hx refl
  Meets-if false x y hx hy = hy refl

  pub Meets-ok : (r : Result A) {a : A} → Meets P r → r ≡ ok a → P a
  Meets-ok (ok b) h e = subst P (cc) h
  Meets-ok (failed x) h e = cc
  Meets-ok out_of_fuel h e = absurd h

  pub Meets-ne-out_of_fuel : (r : Result A) → Meets P r → r ≢ out_of_fuel
  Meets-ne-out_of_fuel (ok a) h = cc
  Meets-ne-out_of_fuel (failed x) h = cc
  Meets-ne-out_of_fuel out_of_fuel h = absurd h
