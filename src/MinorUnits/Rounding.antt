-- ===== src/MinorUnits/Rounding.antt =====
-- Half-even rounding of sovereign/src/utils/minor-units.ts against its specification.
use cashloom.Prelude.{
  ℕ, ◌+◌, ◌*◌, ◌/◌, ◌%◌, ◌≤◌, ◌<◌, ◌≡◌, sym, ap, subst, ◌∙◌, Bool, true, false, ◌&&◌, ◌||◌, not,
  ◌⊎◌, inl, inr, ltb, ◌==◌, ok, Bool-cases, arith,
}
use native.Mathlib.Nat.{mod-lt, div-add-mod', add-mul, one-mul}
use cashloom.MinorUnits.{ℤ, is_negative, magnitude, signed, differ, round_half_even, div_half_even}

-- The number nearest to n / d, and the even one of two that are equally near: the bounds are written
-- without a division.
pub record IsHalfEven (n d q : ℕ) : Type 0 where
  pub low : 2 * n ≤ 2 * (q * d) + d
  pub high : 2 * (q * d) ≤ 2 * n + d
  pub even : ((2 * n < 2 * (q * d) + d) × (2 * (q * d) < 2 * n + d)) ⊎ (q % 2 ≡ 0)

next_product : (q d : ℕ) → (q + 1) * d ≡ q * d + d
next_product q d = add-mul q 1 d ∙ ap (λ x. q * d + x) (one-mul d)

-- The quotient stays where twice the remainder is at most the divisor, with an even one at a tie.
rounded_down :
    (n d q r : ℕ)
    → q * d + r ≡ n
    → r < d
    → (ltb d (r * 2) || (r * 2 == d && q % 2 == 1)) ≡ false
    → IsHalfEven n d q
rounded_down n d q r e lt test = record {
  low = ground arith;
  high = ground arith;
  even = elim (Bool-cases (r * 2 == d)) [
    | inl tie ↦ inr (ground arith)
    | inr near ↦ inl (ground arith, ground arith)
  ];
}

rounded_up :
    (n d q r : ℕ)
    → q * d + r ≡ n
    → r < d
    → (ltb d (r * 2) || (r * 2 == d && q % 2 == 1)) ≡ true
    → IsHalfEven n d (q + 1)
rounded_up n d q r e lt test =
    let next = next_product q d in
    record {
      low = ground arith;
      high = ground arith;
      even = elim (Bool-cases (ltb d (r * 2))) [
        | inl near ↦ inl (ground arith, ground arith)
        | inr tie ↦ inr (ground arith)
      ];
    }

round_half_even-IsHalfEven : (n d : ℕ) → 0 < d → IsHalfEven n d (round_half_even n d)
unfolding round_half_even
round_half_even-IsHalfEven n d h =
    let e = div-add-mod' n d in
    let lt = mod-lt n h in
    elim (Bool-cases (ltb d (n % d * 2) || (n % d * 2 == d && n / d % 2 == 1))) [
      | inl up ↦ rw (round_half_even, up) (rounded_up n d (n / d) (n % d) e lt up)
      | inr down ↦ rw (round_half_even, down) (rounded_down n d (n / d) (n % d) e lt down)
    ]

magnitude-signed : (b : Bool) (n : ℕ) → magnitude (signed b n) ≡ n
magnitude-signed b n = ground arith

negative-signed : (b : Bool) (n : ℕ) → is_negative (signed b n) ≡ (b && not (n == 0))
negative-signed b n = ground arith

-- A division that does not throw gives the nearest number to the quotient, the even one at a tie, with
-- the sign of the quotient.
pub div_half_even-IsHalfEven :
    (numerator denominator z : ℤ)
    → div_half_even numerator denominator ≡ ok z
    → IsHalfEven (magnitude numerator) (magnitude denominator) (magnitude z)
      × (is_negative z
          ≡ (differ (is_negative numerator) (is_negative denominator) && not (magnitude z == 0)))
unfolding div_half_even
div_half_even-IsHalfEven a b z h =
    let s = differ (is_negative a) (is_negative b) in
    let q = round_half_even (magnitude a) (magnitude b) in
    let positive : 0 < magnitude b = ground arith in
    let same : signed s q ≡ z = ground arith in
    let size : magnitude z ≡ q = ap magnitude (sym same) ∙ magnitude-signed s q in
    (
      subst (IsHalfEven (magnitude a) (magnitude b)) (sym size)
          (round_half_even-IsHalfEven (magnitude a) (magnitude b) positive),
      ap is_negative (sym same) ∙ negative-signed s q ∙ ap (λ n. s && not (n == 0)) (sym size),
    )
