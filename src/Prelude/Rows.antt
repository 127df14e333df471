-- ===== src/Prelude/Rows.antt =====
-- Laws of the statements on tables.
use mathlib.Core.Path.{◌≡◌, refl, subst}
use mathlib.Core.Bool.{Bool, true, false, ◌||◌, ◌&&◌}
use mathlib.Core.Logic.{inl, inr}
use mathlib.Core.Option
use mathlib.Core.Option.{Option, none, some}
use mathlib.Core.List.{List, [], ◌∷◌, ◌++◌, Memᴰ}
use native.Mathlib.Omega.{arith}
use cashloom.Prelude.Tests.{if◌then◌else◌, Bool-cases}
use Prim.Native.Nat.{ℕ, ◌+◌}
use cashloom.Prelude.Tables.{length, find, update, count, sum_of, keep_if, any, AllPairs, All}

-- A row as an `UPDATE` leaves it.
abbrev pub updated {ℓ} : {A : Type ℓ} → (A → Bool) → (A → A) → A → A
updated q f x = if q x then f x else x

module _ {ℓ} {A : Type ℓ} (p : A → Bool) where
  pub find-holds : (xs : List A) (a : A) → find p xs ≡ some a → p a ≡ true
  unfolding find
  find-holds [] a h = cc
  find-holds (x ∷ xs) a h = ground (arith, find-holds xs a)

  pub find-append : (xs ys : List A) (a : A) → find p xs ≡ some a → find p (xs ++ ys) ≡ some a
  unfolding find
  find-append [] ys a h = cc
  find-append (x ∷ xs) ys a h = ground (arith, find-append xs ys a)

  pub find-none : (xs : List A) → find p xs ≡ none → any p xs ≡ false
  unfolding find any
  find-none [] h = refl
  find-none (x ∷ xs) h = ground (arith, find-none xs)

  pub find-append_none :
      (xs : List A) (y : A) → find p xs ≡ none → p y ≡ true → find p (xs ++ y ∷ []) ≡ some y
  unfolding find
  find-append_none [] y h k = ground arith
  find-append_none (x ∷ xs) y h k = ground (arith, find-append_none xs y)

  pub find_of_any : (xs : List A) → any p xs ≡ true → (a : A) × (find p xs ≡ some a)
  unfolding find any
  find_of_any [] h = cc
  find_of_any (x ∷ xs) h = elim (Bool-cases (p x)) [
    | inl e ↦ (x, rw e)
    | inr e ↦ rw e (find_of_any xs (rw e at h))
  ]

  pub any-append : (xs ys : List A) → any p (xs ++ ys) ≡ (any p xs || any p ys)
  unfolding any
  any-append [] ys = refl
  any-append (x ∷ xs) ys = ground (arith, any-append xs ys)

  pub any_of_find :
      (q : A → Bool) (xs : List A) (a : A) → find q xs ≡ some a → p a ≡ true → any p xs ≡ true
  unfolding find any
  any_of_find q [] a h k = cc
  any_of_find q (x ∷ xs) a h k = ground (arith, any_of_find q xs a)

module _ {ℓ} {A : Type ℓ} (p : A → Bool) where
  pub Memᴰ_of_find : (xs : List A) (a : A) → find p xs ≡ some a → Memᴰ a xs
  unfolding find
  Memᴰ_of_find [] a h = cc
  Memᴰ_of_find (x ∷ xs) a h = elim (Bool-cases (p x)) [
    | inl hit ↦ Memᴰ.head (cc (rw hit at h))
    | inr miss ↦ Memᴰ.tail (Memᴰ_of_find xs a (rw miss at h))
  ]

pub Memᴰ-append_self {ℓ} : {A : Type ℓ} (xs : List A) (y : A) → Memᴰ y (xs ++ y ∷ [])
Memᴰ-append_self [] y = Memᴰ.head refl
Memᴰ-append_self (x ∷ xs) y = Memᴰ.tail (Memᴰ-append_self xs y)

module _ {ℓ} {A : Type ℓ} (p q : A → Bool) (f : A → A)
    (same : (x : A) → q x ≡ true → p (f x) ≡ p x) where
  pub find-update : (xs : List A) → find p (update q f xs) ≡ Option.map (updated q f) (find p xs)
  unfolding find update
  find-update [] = refl
  find-update (x ∷ xs) = ground (arith, same x, find-update xs)

module _ {ℓ κ ι} {A : Type ℓ} (P : A → Type κ) (Q : A → Type ι) where
  pub All-implies : (xs : List A) → ((x : A) → P x → Q x) → All P xs → All Q xs
  All-implies [] f h = tt
  All-implies (x ∷ xs) f (h, t) = (f x h, All-implies xs f t)

  pub All-update :
      (q : A → Bool) (f : A → A) (xs : List A)
      → ((x : A) → q x ≡ true → P x → Q (f x))
      → ((x : A) → P x → Q x)
      → All P xs
      → All Q (update q f xs)
  unfolding update
  All-update q f [] hit miss h = tt
  All-update q f (x ∷ xs) hit miss (h, t) = (
    elim (Bool-cases (q x)) [ inl e ↦ rw e (hit x e h) | inr e ↦ rw e (miss x h) ],
    All-update q f xs hit miss t,
  )

module _ {ℓ κ} {A : Type ℓ} (P : A → Type κ) where
  pub All-every : (xs : List A) → ((x : A) → P x) → All P xs
  All-every [] f = tt
  All-every (x ∷ xs) f = (f x, All-every xs f)

  pub All-append : (xs ys : List A) → All P xs → All P ys → All P (xs ++ ys)
  All-append [] ys h k = k
  All-append (x ∷ xs) ys (h, t) k = (h, All-append xs ys t k)

  pub All-find : (p : A → Bool) (xs : List A) (a : A) → All P xs → find p xs ≡ some a → P a
  unfolding find
  All-find p [] a h e = cc
  All-find p (x ∷ xs) a (h, t) e = elim (Bool-cases (p x)) [
    | inl hit ↦ (let same : x ≡ a = cc (rw hit at e) in subst P same h)
    | inr miss ↦ All-find p xs a t (rw miss at e)
  ]

module _ {ℓ κ ι υ} {A : Type ℓ} (P : A → Type κ) (Q : A → Type ι) (S : A → Type υ) where
  pub All-both : (xs : List A) → ((x : A) → P x → Q x → S x) → All P xs → All Q xs → All S xs
  All-both [] f h k = tt
  All-both (x ∷ xs) f (h, t) (k, u) = (f x h k, All-both xs f t u)

module _ {ℓ} {A : Type ℓ} (R : A → A → Type 0) where
  pub AllPairs-append :
      (xs : List A) (y : A) → All (λ x. R x y) xs → AllPairs R xs → AllPairs R (xs ++ y ∷ [])
  AllPairs-append [] y h k = (tt, tt)
  AllPairs-append (x ∷ xs) y (h, t) (far, k) =
      (All-append (R x) xs (y ∷ []) far (h, tt), AllPairs-append xs y t k)

module _ {ℓ} {A : Type ℓ} (p : A → Bool) where
  pub All_of_any : (xs : List A) → any p xs ≡ false → All (λ x. p x ≡ false) xs
  unfolding any
  All_of_any [] h = tt
  All_of_any (x ∷ xs) h = (ground arith, All_of_any xs (ground arith))

module _ {ℓ} {A : Type ℓ} (p q : A → Bool) where
  find-and_none : (xs : List A) → All (λ x. p x ≡ false) xs → find (λ x. p x && q x) xs ≡ none
  unfolding find
  find-and_none [] h = refl
  find-and_none (x ∷ xs) (h, t) = ground (arith, find-and_none xs t)

  -- A second test on the one row that a first test picks.
  pub find-and :
      (xs : List A)
      → AllPairs (λ x y. (p x && p y) ≡ false) xs
      → find (λ x. p x && q x) xs ≡ keep_if q (find p xs)
  unfolding find
  find-and [] h = refl
  find-and (x ∷ xs) (h, t) = elim (Bool-cases (p x)) [
    | inl hit ↦
        (let others = find-and_none xs (All-implies _ _ xs (λ y e. ground arith) h) in ground arith)
    | inr miss ↦ ground (arith, find-and xs t)
  ]

module _ {ℓ κ} {A : Type ℓ} (Q : A → Type κ) (R S : A → A → Type 0) where
  All-relates :
      (x : A) (xs : List A)
      → ((y : A) → Q y → R x y → S x y)
      → All Q xs
      → All (R x) xs
      → All (S x) xs
  All-relates x [] f h k = tt
  All-relates x (y ∷ xs) f (h, t) (k, u) = (f y h k, All-relates x xs f t u)

  pub AllPairs-implies :
      (xs : List A)
      → ((x y : A) → Q x → Q y → R x y → S x y)
      → All Q xs
      → AllPairs R xs
      → AllPairs S xs
  AllPairs-implies [] f h k = tt
  AllPairs-implies (x ∷ xs) f (h, t) (k, u) =
      (All-relates x xs (λ y. f x y h) t k, AllPairs-implies xs f t u)

-- A relation of what an `UPDATE` keeps of each row.
module _ {ℓ} {A : Type ℓ} (R : A → A → Type 0) (q : A → Bool) (f : A → A)
    (left : (x y : A) → R x y → R (f x) y) (right : (x y : A) → R x y → R x (f y)) where
  pub AllPairs-update : (xs : List A) → AllPairs R xs → AllPairs R (update q f xs)
  unfolding update
  AllPairs-update [] h = tt
  AllPairs-update (x ∷ xs) (h, t) = (
    All-update (R x) (R (updated q f x)) q f xs (λ y _ k. moved x (f y) (right x y k))
        (λ y. moved x y) h,
    AllPairs-update xs t,
  )
    where
      moved : (x y : A) → R x y → R (updated q f x) y
      moved x y k = elim (Bool-cases (q x)) [ inl e ↦ rw e (left x y k) | inr e ↦ rw e k ]

module _ {ℓ} {A : Type ℓ} (p : A → Bool) where
  pub count-append : (xs ys : List A) → count p (xs ++ ys) ≡ count p xs + count p ys
  unfolding count
  count-append [] ys = omega arith
  count-append (x ∷ xs) ys = ground (arith, count-append xs ys)

  pub sum_of-append :
      (size : A → ℕ) (xs ys : List A)
      → sum_of p size (xs ++ ys) ≡ sum_of p size xs + sum_of p size ys
  unfolding sum_of
  sum_of-append size [] ys = omega arith
  sum_of-append size (x ∷ xs) ys = ground (arith, sum_of-append size xs ys)

module _ {ℓ} {A : Type ℓ} (p q : A → Bool) where
  pub any-or : (xs : List A) → any (λ x. p x || q x) xs ≡ (any p xs || any q xs)
  unfolding any
  any-or [] = refl
  any-or (x ∷ xs) = ground (arith, any-or xs)

pub length-append {ℓ} : {A : Type ℓ} (xs ys : List A) → length (xs ++ ys) ≡ length xs + length ys
length-append [] ys = omega arith
length-append (x ∷ xs) ys = ground (arith, length-append xs ys)
