-- ===== src/Common/Lists.antt =====
-- Lists and dictionaries over the native numbers and texts.
use Prim.Native.Nat.{ℕ, zero, suc, ◌+◌}
use Prim.Native.String.{String}
use mathlib.Core.Path.{◌≡◌}
use mathlib.Core.Bool.{true, false}
use mathlib.Core.Option.{Option, none, some}
use mathlib.Core.List.{List, [], ◌∷◌, ◌++◌}
use native.Mathlib.Omega.{arith}
use text.Mathlib.Text.{◌==◌}

module _ {ℓ} {A : Type ℓ} where
  abbrev pub length : List A → ℕ
  length [] = 0
  length (x ∷ xs) = suc (length xs)

  abbrev pub get_elem? : List A → ℕ → Option A
  get_elem? [] i = none
  get_elem? (x ∷ xs) zero = some x
  get_elem? (x ∷ xs) (suc i) = get_elem? xs i

  pub length-append : (xs ys : List A) → length (xs ++ ys) ≡ length xs + length ys
  length-append [] ys = omega arith
  length-append (x ∷ xs) ys = omega (arith, length-append xs ys)

module _ {ℓ κ} {A : Type ℓ} (P : A → Type κ) where
  abbrev pub All : List A → Type κ
  All [] = Unit
  All (x ∷ xs) = P x × All xs

  pub All-append : (xs : List A) (y : A) → All xs → P y → All (xs ++ y ∷ [])
  All-append [] y h p = (p, tt)
  All-append (x ∷ xs) y (q, h) p = (q, All-append xs y h p)

  pub All-middle : (before after : List A) (x : A) → All (before ++ x ∷ after) → P x
  All-middle [] after x (p, h) = p
  All-middle (y ∷ before) after x (p, h) = All-middle before after x h

  -- One element for another.
  pub All-replace :
      (before after : List A) (x y : A)
      → All (before ++ x ∷ after)
      → P y
      → All (before ++ y ∷ after)
  All-replace [] after x y (p, h) q = (q, h)
  All-replace (z ∷ before) after x y (p, h) q = (p, All-replace before after x y h q)

module _ {ℓ} {V : Type ℓ} where
  abbrev pub lookup : String → List (String × V) → Option V
  lookup k [] = none
  lookup k ((j, v) ∷ m) = elim (j == k) [ true ↦ some v | false ↦ lookup k m ]
