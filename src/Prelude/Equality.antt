-- ===== src/Prelude/Equality.antt =====
-- Decidable equality as an interface, with one operator for numbers, texts and strings.
use Prim.Native.Nat.{ℕ}
use Prim.Native.String.{String}
use mathlib.Core.Path.{subst, sym, ◌≡◌, refl}
use mathlib.Core.Logic.{inl, inr, ◌↔◌}
use mathlib.Core.Bool.{Bool, true, false, ◌&&◌, ◌||◌}
use mathlib.Core.List.{◌++◌, List, [], ◌∷◌}
use mathlib.Core.Option.{Option, none, some}
use native.Mathlib.Omega.{arith}
use text.Mathlib.Text.{◌==◌ as str_eq}
use text.Mathlib.TextEquality.{eq_iff}
use ui_for_docker.Prelude.Lists.{keep}
use ui_for_docker.Prelude.Tests.{Bool-cases, nat_eq, nat_eq_iff}

-- A test of two values, and that it decides their equality.
pub record Eq {ℓ} (A : Type ℓ) : Type ℓ where
  pub same : (x y : A) → Bool
  pub same_iff : (x y : A) → (same x y ≡ true) ↔ (x ≡ y)

infix 50 ◌==◌
abbrev pub ◌==◌ {ℓ} : {A : Type ℓ} ⦃tests : Eq A⦄ → A → A → Bool
◌==◌ ⦃tests⦄ = tests.same

pub ==_iff {ℓ} : {A : Type ℓ} ⦃e : Eq A⦄ (a b : A) → ((a == b) ≡ true) ↔ (a ≡ b)
==_iff ⦃e⦄ a b = e.same_iff a b

pub ==_self {ℓ} : {A : Type ℓ} ⦃e : Eq A⦄ (a : A) → (a == a) ≡ true
==_self ⦃e⦄ a = (e.same_iff a a).1 refl

instance abbrev pub eq_nat : Eq ℕ
eq_nat = record { same_iff = nat_eq_iff; same = nat_eq }

instance abbrev pub eq_string : Eq String
eq_string = record { same_iff = eq_iff; same = str_eq }

module _ {ℓ} {A : Type ℓ} ⦃e : Eq A⦄ where
  unfoldable pub list_eq : List A → List A → Bool
  list_eq [] [] = true
  list_eq [] (b ∷ bs) = false
  list_eq (a ∷ as') [] = false
  list_eq (a ∷ as') (b ∷ bs) = a == b && list_eq as' bs

  pub list_eq_iff : (as' bs : List A) → (list_eq as' bs ≡ true) ↔ (as' ≡ bs)
  unfolding list_eq
  list_eq_iff [] [] = ((λ _. refl), λ _. refl)
  list_eq_iff [] (b ∷ bs) = ground arith
  list_eq_iff (a ∷ as') [] = ground arith
  list_eq_iff (a ∷ as') (b ∷ bs) = ground (arith, e.same_iff a b, list_eq_iff as' bs)

  pub list_eq_self : (as' : List A) → list_eq as' as' ≡ true
  list_eq_self as' = (list_eq_iff as' as').1 refl

  unfoldable pub option_eq : Option A → Option A → Bool
  option_eq none none = true
  option_eq none (some b) = false
  option_eq (some a) none = false
  option_eq (some a) (some b) = a == b

  pub option_eq_iff : (a b : Option A) → (option_eq a b ≡ true) ↔ (a ≡ b)
  unfolding option_eq
  option_eq_iff none none = ((λ _. refl), λ _. refl)
  option_eq_iff none (some b) = ground arith
  option_eq_iff (some a) none = ground arith
  option_eq_iff (some a) (some b) = ground (arith, e.same_iff a b)

  instance abbrev pub eq_list : Eq (List A)
  eq_list = record { same_iff = list_eq_iff; same = list_eq }

  instance abbrev pub eq_option : Eq (Option A)
  eq_option = record { same_iff = option_eq_iff; same = option_eq }

  -- `_.includes(xs, a)`
  unfoldable pub includes : List A → A → Bool
  includes [] a = false
  includes (x ∷ xs) a = x == a || includes xs a

  pub includes-append :
      (xs ys : List A) (a : A) → includes (xs ++ ys) a ≡ (includes xs a || includes ys a)
  unfolding includes
  includes-append [] ys a = refl
  includes-append (x ∷ xs) ys a = ground (arith, includes-append xs ys a)

  pub includes-keep :
      (p : A → Bool) (xs : List A) (a : A) → includes (keep p xs) a ≡ (p a && includes xs a)
  unfolding includes keep
  includes-keep p [] a = ground arith
  includes-keep p (x ∷ xs) a = elim (Bool-cases (x == a)) [
    | inl same ↦
        subst (λ y. includes (keep p (y ∷ xs)) a ≡ (p a && includes (y ∷ xs) a))
          (sym ((==_iff x a).0 same)) (ground (arith, includes-keep p xs a, ==_self a))
    | inr other ↦ ground (arith, includes-keep p xs a, other)
  ]

  -- No element stands twice.
  abbrev pub IsUnique : List A → Type 0
  IsUnique [] = Unit {0}
  IsUnique (x ∷ xs) = (includes xs x ≡ false) × IsUnique xs

  pub keep-IsUnique : (p : A → Bool) (xs : List A) → IsUnique xs → IsUnique (keep p xs)
  unfolding keep
  keep-IsUnique p [] h = tt
  keep-IsUnique p (x ∷ xs) (q, h) = elim (Bool-cases (p x)) [
    | inl e ↦ rw e (ground (arith, includes-keep p xs x), keep-IsUnique p xs h)
    | inr e ↦ rw e (keep-IsUnique p xs h)
  ]
