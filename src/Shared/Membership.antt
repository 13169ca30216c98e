-- ===== src/Shared/Membership.antt =====
-- Membership in lists, and what holds of all members.
use mathlib.Core.Path.{◌≡◌, refl, subst, sym}
use mathlib.Core.Logic.{◌⊎◌, inl, inr}
use mathlib.Core.Bool.{Bool, true}
use mathlib.Core.List.{List, [], ◌∷◌, ◌++◌}
use native.Mathlib.Omega.{arith}
use devicelane.Shared.Tests.{Bool-cases}
use devicelane.Shared.Lists.{retain, any}

-- The element is in the list.
pub data In {ℓ} {A : Type ℓ} : A → List A → Type ℓ where
  here : {a x : A} {xs : List A} → x ≡ a → In a (x ∷ xs)
  there : {a x : A} {xs : List A} → In a xs → In a (x ∷ xs)

module _ {ℓ} {A : Type ℓ} where
  pub In-nil : (a : A) → ¬ In a []
  In-nil a h = elim h [ ]

  pub In-cases : (a x : A) (xs : List A) → In a (x ∷ xs) → (x ≡ a) ⊎ In a xs
  In-cases a x xs (In.here h) = inl h
  In-cases a x xs (In.there h) = inr h

  pub In-retain : (p : A → Bool) (a : A) (xs : List A) → In a xs → p a ≡ true → In a (retain p xs)
  In-retain p a [] h k = absurd (In-nil a h)
  In-retain p a (x ∷ xs) h k = elim (Bool-cases (p x)) [
    | inl passes ↦ elim (In-cases a x xs h) [
      | inl same ↦ rw passes (In.here same)
      | inr later ↦ rw passes (In.there (In-retain p a xs later k))
    ]
    | inr fails ↦ elim (In-cases a x xs h) [
      | inl same ↦ absurd (ground (arith, same, fails, k))
      | inr later ↦ rw fails (In-retain p a xs later k)
    ]
  ]

  pub retain-In : (p : A → Bool) (a : A) (xs : List A) → In a (retain p xs) → In a xs × (p a ≡ true)
  retain-In p a [] h = absurd (In-nil a h)
  retain-In p a (x ∷ xs) h = elim (Bool-cases (p x)) [
    | inl passes ↦ elim (In-cases a x (retain p xs) (rw passes at h)) [
      | inl same ↦ (In.here same, subst (λ y. p y ≡ true) same passes)
      | inr later ↦ let (later', passed) = retain-In p a xs later in (In.there later', passed)
    ]
    | inr fails ↦ let (later, passed) = retain-In p a xs (rw fails at h) in (In.there later, passed)
  ]

  pub In-append : (a : A) (xs ys : List A) → In a (xs ++ ys) → In a xs ⊎ In a ys
  In-append a [] ys h = inr h
  In-append a (x ∷ xs) ys h = elim (In-cases a x (xs ++ ys) h) [
    | inl same ↦ inl (In.here same)
    | inr later ↦ elim (In-append a xs ys later) [
      | inl first ↦ inl (In.there first)
      | inr second ↦ inr second
    ]
  ]

  pub In-left : (a : A) (xs ys : List A) → In a xs → In a (xs ++ ys)
  In-left a [] ys h = absurd (In-nil a h)
  In-left a (x ∷ xs) ys h = elim (In-cases a x xs h) [
    | inl same ↦ In.here same
    | inr later ↦ In.there (In-left a xs ys later)
  ]

  pub In-last : (a : A) (xs : List A) → In a (xs ++ a ∷ [])
  In-last a [] = In.here refl
  In-last a (x ∷ xs) = In.there (In-last a xs)

  pub any-In : (p : A → Bool) (a : A) (xs : List A) → In a xs → p a ≡ true → any p xs ≡ true
  any-In p a [] h k = absurd (In-nil a h)
  any-In p a (x ∷ xs) h k = elim (In-cases a x xs h) [
    | inl same ↦ let first : p x ≡ true = subst (λ y. p y ≡ true) (sym same) k in rw first refl
    | inr later ↦ elim (Bool-cases (p x)) [
      | inl holds ↦ rw holds refl
      | inr other ↦ rw other (any-In p a xs later k)
    ]
  ]
