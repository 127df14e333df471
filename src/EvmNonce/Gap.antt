-- ===== src/EvmNonce/Gap.antt =====
-- The search for the lowest free nonce in `reserveEvmNonce`.
use mathlib.Core.Path.{fun_ext}
use cashloom.Prelude.{
  ℕ, ◌+◌, ◌≤◌, ◌<◌, ◌≡◌, refl, ap, ◌∙◌, Bool, true, false, ◌&&◌, List, [], ◌∷◌, Text, map, leb, ltb,
  ◌==◌, Bool-cases, inl, inr, ok, select, any, All, contains, contains-order_by, IsSorted,
  order_by-IsSorted, arith,
}
use cashloom.EvmNonce.{Reservation, holds, max_safe_integer}
use cashloom.EvmNonce.Reserve.{first_gap, is_candidate, live_nonces}

pub first_gap-ge : (n : ℕ) (xs : List ℕ) (r : ℕ) → first_gap n xs ≡ ok r → n ≤ r
unfolding first_gap
first_gap-ge n [] r h = ground arith
first_gap-ge n (x ∷ xs) r h = ground (arith, first_gap-ge (n + 1) xs r, first_gap-ge n xs r)

not_contains_below : (m x : ℕ) (xs : List ℕ) → m < x → All (λ y. x ≤ y) xs → contains m xs ≡ false
unfolding contains
not_contains_below m x [] h t = refl
not_contains_below m x (y ∷ ys) h t = ground (arith, not_contains_below m x ys)

first_gap_free :
    (n : ℕ) (xs : List ℕ) (r : ℕ) → IsSorted xs → first_gap n xs ≡ ok r → contains r xs ≡ false
unfolding first_gap contains
first_gap_free n [] r s h = refl
first_gap_free n (x ∷ xs) r s h = ground (
  arith,
  first_gap-ge (n + 1) xs r,
  first_gap-ge n xs r,
  first_gap_free (n + 1) xs r s.1,
  first_gap_free n xs r s.1,
  not_contains_below n x xs,
)

pub first_gap_lowest :
    (n : ℕ) (xs : List ℕ) (r m : ℕ) → first_gap n xs ≡ ok r → n ≤ m → m < r → contains m xs ≡ true
unfolding first_gap contains
first_gap_lowest n [] r m h p q = ground arith
first_gap_lowest n (x ∷ xs) r m h p q =
    ground (arith, first_gap_lowest (n + 1) xs r m, first_gap_lowest n xs r m)

pub first_gap_total :
    (n : ℕ) (xs : List ℕ)
    → All (λ x. x ≤ max_safe_integer) xs
    → contains max_safe_integer xs ≡ false
    → (r : ℕ) × (first_gap n xs ≡ ok r)
unfolding first_gap contains
first_gap_total n [] t h = (n, refl)
first_gap_total n (x ∷ xs) t h =
    let later = first_gap_total (n + 1) xs t.1 (ground arith) in
    let same = first_gap_total n xs t.1 (ground arith) in
    elim (Bool-cases (x == n)) [
      | inl e ↦ (later.0, ground (arith, later.1))
      | inr e ↦ elim (Bool-cases (ltb n x)) [
        | inl e' ↦ (n, ground arith)
        | inr e' ↦ (same.0, ground (arith, same.1))
      ]
    ]

candidate-at :
    (c : ℕ) (a : Text) (p m : ℕ) (r : Reservation)
    → (is_candidate c a p r && m == r.nonce) ≡ (leb p m && holds c a m r)
unfolding is_candidate holds
candidate-at c a p m r = ground arith

contains-selected :
    (q : Reservation → Bool) (m : ℕ) (rows : List Reservation)
    → contains m (map (λ r. r.nonce) (select q rows)) ≡ any (λ r. q r && m == r.nonce) rows
unfolding contains select any
contains-selected q m [] = refl
contains-selected q m (r ∷ rows) = ground (arith, contains-selected q m rows)

any-and :
    (b : Bool) (q : Reservation → Bool) (rows : List Reservation)
    → any (λ r. b && q r) rows ≡ (b && any q rows)
unfolding any
any-and b q [] = ground arith
any-and b q (r ∷ rows) = ground (arith, any-and b q rows)

pub contains-live_nonces :
    (c : ℕ) (a : Text) (p m : ℕ) (rows : List Reservation)
    → contains m (live_nonces c a p rows) ≡ (leb p m && any (holds c a m) rows)
unfolding live_nonces
contains-live_nonces c a p m rows =
    contains-order_by m _
    ∙ contains-selected (is_candidate c a p) m rows
    ∙ ap (λ q. any q rows) (fun_ext (candidate-at c a p m))
    ∙ any-and (leb p m) (holds c a m) rows

module _ (c : ℕ) (a : Text) (p : ℕ) (rows : List Reservation) (r : ℕ)
    (found : first_gap p (live_nonces c a p rows) ≡ ok r) where
  pub gap-ge : p ≤ r
  gap-ge = first_gap-ge p _ r found

  -- No live row of the sender holds the nonce that is found.
  pub gap-free : any (holds c a r) rows ≡ false
  unfolding live_nonces
  gap-free =
      let free = first_gap_free p (live_nonces c a p rows) r (order_by-IsSorted _) found in
      ground (arith, gap-ge, contains-live_nonces c a p r rows, free)

  -- Every nonce between the pending one and the one that is found is held by a live row.
  pub gap-lowest : (m : ℕ) → p ≤ m → m < r → any (holds c a m) rows ≡ true
  gap-lowest m h k = ground (
    arith,
    contains-live_nonces c a p m rows,
    first_gap_lowest p (live_nonces c a p rows) r m found h k,
  )
