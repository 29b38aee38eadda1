-- ===== src/Base/Counts.antt =====
-- A flag as a number, and predicates over all items of a list.
use packages.Base.Lists.{length}
use Prim.Native.Nat.{ℕ, ◌+◌}
use mathlib.Core.Path.{◌≡◌}
use mathlib.Core.Bool.{Bool, true, false}
use mathlib.Core.List.{List, [], ◌∷◌, ◌++◌}
use native.Mathlib.Omega.{arith}

abbrev pub flag : Bool → ℕ
flag true = 1
flag false = 0

abbrev pub All {ℓ κ} : {A : Type ℓ} → (A → Type κ) → List A → Type κ
All P [] = Unit
All P (x ∷ xs) = P x × All P xs

pub All-empty {ℓ κ} : {A : Type ℓ} (P : A → Type κ) (xs : List A) → length xs ≡ 0 → All P xs
All-empty P [] h = tt
All-empty P (x ∷ xs) h = absurd (omega arith)

pub All-middle {ℓ κ} :
    {A : Type ℓ} (P : A → Type κ) (xs : List A) (x : A) (ys : List A) → All P (xs ++ x ∷ ys) → P x
All-middle P [] x ys h = h.0
All-middle P (y ∷ xs) x ys h = All-middle P xs x ys h.1

pub length-middle {ℓ} :
    {A : Type ℓ} (xs : List A) (x : A) (ys : List A) → length (xs ++ x ∷ ys) ≡ length (xs ++ ys) + 1
length-middle [] x ys = omega arith
length-middle (y ∷ xs) x ys = omega (arith, length-middle xs x ys)

pub All-remove {ℓ κ} :
    {A : Type ℓ} (P : A → Type κ) (xs : List A) (x : A) (ys : List A)
    → All P (xs ++ x ∷ ys)
    → All P (xs ++ ys)
All-remove P [] x ys h = h.1
All-remove P (y ∷ xs) x ys h = (h.0, All-remove P xs x ys h.1)
