-- ===== src/Prelude/Lists.antt =====
-- Lists measured by native numbers, and JavaScript's `includes`, `some` and `every`.
use Prim.Native.Nat.{ℕ, suc, ◌+◌}
use mathlib.Core.Path.{◌≡◌, sym}
use mathlib.Core.Logic.{◌↔◌, inl, inr}
use mathlib.Core.Bool.{Bool, true, false, ◌&&◌, ◌||◌}
use mathlib.Core.List.{List, [], ◌∷◌, ◌++◌, Memᴰ}
use native.Mathlib.Omega.{arith}
use threadmesh.Prelude.Tests.{Eq, ◌==◌, Bool-cases, beq_refl, beq_sound}

module _ {ℓ} {A : Type ℓ} where
  abbrev pub length : List A → ℕ
  length [] = 0
  length (x ∷ xs) = suc (length xs)

  pub length-append : (xs ys : List A) → length (xs ++ ys) ≡ length xs + length ys
  length-append [] ys = omega arith
  length-append (x ∷ xs) ys = omega (arith, length-append xs ys)

  abbrev pub every : (A → Bool) → List A → Bool
  every p [] = true
  every p (x ∷ xs) = p x && every p xs

module _ {ℓ κ} {A : Type ℓ} where
  abbrev pub All : (A → Type κ) → List A → Type κ
  All P [] = Unit
  All P (x ∷ xs) = P x × All P xs

module _ {ℓ} {A : Type ℓ} ⦃e : Eq A⦄ where
  abbrev pub includes : List A → A → Bool
  includes [] a = false
  includes (x ∷ xs) a = (x == a) || includes xs a

  pub includes→mem : (xs : List A) (a : A) → includes xs a ≡ true → Memᴰ a xs
  includes→mem [] a h = cc
  includes→mem (x ∷ xs) a h = elim (Bool-cases (x == a)) [
    | inl p ↦ Memᴰ.head (sym (beq_sound x a p))
    | inr q ↦ Memᴰ.tail (includes→mem xs a (rw (← h) (rw q)))
  ]

  pub mem→includes : (xs : List A) (a : A) → Memᴰ a xs → includes xs a ≡ true
  mem→includes [] a m = elim m [ ]
  mem→includes (x ∷ xs) a (Memᴰ.head p) = rw p (rw (beq_refl x))
  mem→includes (x ∷ xs) a (Memᴰ.tail m) = ground (arith, mem→includes xs a m)

  -- `includes` finds exactly the members of the list.
  pub includes_iff : (xs : List A) (a : A) → (includes xs a ≡ true) ↔ Memᴰ a xs
  includes_iff xs a = (includes→mem xs a, mem→includes xs a)
