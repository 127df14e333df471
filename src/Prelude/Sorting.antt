-- ===== src/Prelude/Sorting.antt =====
-- `ORDER BY` on a column of numbers, and membership in such a column.
use Prim.Native.Nat.{ℕ, ◌≤◌}
use mathlib.Core.Path.{◌≡◌, refl}
use mathlib.Core.Bool.{Bool, false, ◌||◌}
use mathlib.Core.List.{List, [], ◌∷◌}
use native.Mathlib.Omega.{arith}
use cashloom.Prelude.Tests.{◌==◌, leb, if◌then◌else◌}
use cashloom.Prelude.Tables.{All}

unfoldable pub contains : ℕ → List ℕ → Bool
contains n [] = false
contains n (x ∷ xs) = n == x || contains n xs

unfoldable pub insert_sorted : ℕ → List ℕ → List ℕ
insert_sorted n [] = n ∷ []
insert_sorted n (x ∷ xs) = if leb n x then n ∷ x ∷ xs else x ∷ insert_sorted n xs

unfoldable pub order_by : List ℕ → List ℕ
unfolding insert_sorted
order_by [] = []
order_by (x ∷ xs) = insert_sorted x (order_by xs)

abbrev pub IsSorted : List ℕ → Type 0
IsSorted [] = Unit
IsSorted (x ∷ xs) = All (λ y. x ≤ y) xs × IsSorted xs

All-le_trans : (a b : ℕ) (xs : List ℕ) → a ≤ b → All (λ y. b ≤ y) xs → All (λ y. a ≤ y) xs
All-le_trans a b [] h t = tt
All-le_trans a b (x ∷ xs) h (p, t) = (omega arith, All-le_trans a b xs h t)

All-le-insert_sorted :
    (a n : ℕ) (xs : List ℕ) → a ≤ n → All (λ y. a ≤ y) xs → All (λ y. a ≤ y) (insert_sorted n xs)
unfolding insert_sorted
All-le-insert_sorted a n [] h t = (h, tt)
All-le-insert_sorted a n (x ∷ xs) h t = ground (arith, All-le-insert_sorted a n xs h t.1)

insert_sorted-IsSorted : (n : ℕ) (xs : List ℕ) → IsSorted xs → IsSorted (insert_sorted n xs)
unfolding insert_sorted
insert_sorted-IsSorted n [] h = (tt, tt)
insert_sorted-IsSorted n (x ∷ xs) h =
    ground (arith, All-le_trans n x xs, All-le-insert_sorted x n xs, insert_sorted-IsSorted n xs)

pub order_by-IsSorted : (xs : List ℕ) → IsSorted (order_by xs)
unfolding order_by
order_by-IsSorted [] = tt
order_by-IsSorted (x ∷ xs) = insert_sorted-IsSorted x (order_by xs) (order_by-IsSorted xs)

contains-insert_sorted :
    (m n : ℕ) (xs : List ℕ) → contains m (insert_sorted n xs) ≡ (m == n || contains m xs)
unfolding contains insert_sorted
contains-insert_sorted m n [] = refl
contains-insert_sorted m n (x ∷ xs) = ground (arith, contains-insert_sorted m n xs)

pub contains-order_by : (m : ℕ) (xs : List ℕ) → contains m (order_by xs) ≡ contains m xs
unfolding order_by contains
contains-order_by m [] = refl
contains-order_by m (x ∷ xs) =
    ground (arith, contains-insert_sorted m x (order_by xs), contains-order_by m xs)
