-- ===== src/MinorUnits/Digits.antt =====
-- The digits that sovereign/src/utils/minor-units.ts prints read back as the amount.
use cashloom.Prelude.{
  ℕ, zero, suc, ◌+◌, ◌-◌, ◌*◌, ◌/◌, ◌%◌, ◌≤◌, ◌<◌, ◌≡◌, refl, sym, ap, subst, ◌∙◌, true, false, ◌⊎◌,
  inl, inr, [], ◌∷◌, ◌++◌, Text, take, length, length-append, ltb, ◌==◌, all, ok, bind-eq-ok,
  if◌then◌else◌, Bool-cases, arith,
}
use cashloom.MinorUnits.{
  ℤ, magnitude, is_digit, is_digits, value_from, parse_minor, assert_decimals, digits_of, decimal,
  sign_of, zeros, pad_start, drop, format_digits, format_minor,
}

all-append :
    (xs ys : Text)
    → all is_digit xs ≡ true
    → all is_digit ys ≡ true
    → all is_digit (xs ++ ys) ≡ true
unfolding all
all-append [] ys h k = k
all-append (x ∷ xs) ys h k = ground (arith, all-append xs ys)

value_from-append :
    (n : ℕ) (xs ys : Text) → value_from n (xs ++ ys) ≡ value_from (value_from n xs) ys
unfolding value_from
value_from-append n [] ys = refl
value_from-append n (x ∷ xs) ys = value_from-append (n * 10 + (x - b'0')) xs ys

last_digit : (n : ℕ) → (is_digit (b'0' + n % 10) ≡ true) × ((b'0' + n % 10) - b'0' ≡ n % 10)
last_digit n = (ground arith, omega arith)

-- A number's digits, and what they read as
pub record IsNumeral (s : Text) (n : ℕ) : Type 0 where
  pub digits : all is_digit s ≡ true
  pub some_digit : 0 < length s
  pub value : value_from 0 s ≡ n

one_digit : (n : ℕ) → n < 10 → IsNumeral ((b'0' + n % 10) ∷ []) n
unfolding all value_from
one_digit n h = record { digits = ground arith; some_digit = omega arith; value = omega arith }

more_digits : (s : Text) (n : ℕ) → IsNumeral s (n / 10) → IsNumeral (s ++ (b'0' + n % 10) ∷ []) n
unfolding all value_from
more_digits s n h =
    let (digit, size) = last_digit n in
    let front = h.value in
    record {
      digits = all-append s _ h.digits (ground arith);
      some_digit = rw (length-append s ((b'0' + n % 10) ∷ [])) (omega arith);
      value = value_from-append 0 s ((b'0' + n % 10) ∷ []) ∙ rw front (omega arith);
    }

digits_of-IsNumeral : (fuel n : ℕ) → n < fuel → IsNumeral (digits_of fuel n) n
unfolding digits_of
digits_of-IsNumeral zero n h = absurd (omega arith)
digits_of-IsNumeral (suc fuel) n h = elim (Bool-cases (ltb n 10)) [
  | inl small ↦ rw (digits_of, small) (one_digit n (ground arith))
  | inr large ↦
      rw (digits_of, large)
        (more_digits (digits_of fuel (n / 10)) n (digits_of-IsNumeral fuel (n / 10) (ground arith)))
]

padded-IsNumeral : (k n : ℕ) (s : Text) → IsNumeral s n → IsNumeral (zeros k ++ s) n
unfolding zeros all value_from
padded-IsNumeral zero n s h = h
padded-IsNumeral (suc k) n s h =
    let rest = padded-IsNumeral k n s h in
    record { digits = rest.digits; some_digit = omega arith; value = rest.value }

-- A text without its decimal points
unfoldable pub without_point : Text → Text
without_point [] = []
without_point (c ∷ s) = let rest = without_point s in if c == b'.' then rest else c ∷ rest

without_point-digits : (s : Text) → all is_digit s ≡ true → without_point s ≡ s
unfolding without_point all
without_point-digits [] h = refl
without_point-digits (c ∷ s) h = ground (arith, without_point-digits s)

without_point-split :
    (k : ℕ) (s : Text) → all is_digit s ≡ true → without_point (take k s ++ b'.' ∷ drop k s) ≡ s
unfolding without_point all drop
without_point-split zero s h = without_point-digits s h
without_point-split (suc k) [] h = refl
without_point-split (suc k) (c ∷ s) h = ground (arith, without_point-split k s)

length-drop : (k : ℕ) (s : Text) → k ≤ length s → length (drop k s) ≡ length s - k
unfolding drop
length-drop zero s h = omega arith
length-drop (suc k) [] h = absurd (omega arith)
length-drop (suc k) (c ∷ s) h = ground (arith, length-drop k s)

numeral-is_digits : (s : Text) (n : ℕ) → IsNumeral s n → is_digits s ≡ true
numeral-is_digits s n h = let d = h.digits in let l = h.some_digit in ground arith

-- A sign and a numeral parse as the number.
parse_minor-signed :
    (z : ℤ) (s : Text) → IsNumeral s (magnitude z) → parse_minor (sign_of z ++ s) ≡ ok z
unfolding parse_minor all
parse_minor-signed (ℤ.pos n) [] h = absurd (let l = h.some_digit in omega arith)
parse_minor-signed (ℤ.pos n) (c ∷ s) h =
    let d = h.digits in
    let v = h.value in
    let digits = numeral-is_digits (c ∷ s) n h in
    let plain : (c == b'-') ≡ false = ground arith in rw (parse_minor, plain, digits, v) refl
parse_minor-signed (ℤ.negsuc n) s h =
    let digits = numeral-is_digits s (n + 1) h in
    let v = h.value in rw (parse_minor, digits, v) (ground arith)

without_point-signed :
    (z : ℤ) (s : Text) → without_point (sign_of z ++ s) ≡ sign_of z ++ without_point s
unfolding without_point
without_point-signed (ℤ.pos n) s = refl
without_point-signed (ℤ.negsuc n) s = refl

signed_assoc : (z : ℤ) (xs ys : Text) → sign_of z ++ (xs ++ ys) ≡ (sign_of z ++ xs) ++ ys
signed_assoc (ℤ.pos n) xs ys = refl
signed_assoc (ℤ.negsuc n) xs ys = refl

length-zeros : (n : ℕ) → length (zeros n) ≡ n
unfolding zeros
length-zeros zero = refl
length-zeros (suc n) = ground (arith, length-zeros n)

wide_enough : (d : ℕ) (s : Text) → d + 1 ≤ length (pad_start (d + 1) s)
wide_enough d s =
    rw (length-append (zeros (d + 1 - length s)) s, length-zeros (d + 1 - length s)) (omega arith)

-- The printed digits, in front of a point and behind it, with their number behind.
abbrev pub HasFraction : ℕ → Text → Type 0
HasFraction d t =
    (d ≡ 0)
    ⊎ ((front : Text) × (fraction : Text) × (t ≡ front ++ b'.' ∷ fraction) × (length fraction ≡ d))

format_digits-reads :
    (z : ℤ) (d : ℕ) (s : Text)
    → IsNumeral s (magnitude z)
    → IsNumeral (without_point (format_digits d s)) (magnitude z)
      × HasFraction d (sign_of z ++ format_digits d s)
format_digits-reads z d s h = elim (Bool-cases (d == 0)) [
  | inl whole ↦ (rw (whole, without_point-digits s h.digits) h, inl (ground arith))
  | inr point ↦
      (let padded = pad_start (d + 1) s in
        let k = length padded - d in
        let p = padded-IsNumeral (d + 1 - length s) (magnitude z) s h in
        let wide = wide_enough d s in
        (
          rw (point, without_point-split k padded p.digits) p,
          inr (
            sign_of z ++ take k padded,
            drop k padded,
            rw point (signed_assoc z (take k padded) (b'.' ∷ drop k padded)),
            length-drop k padded (omega arith) ∙ omega arith,
          ),
        ))
]

-- An amount that formats is an integer; its text with the point taken out parses as the same integer,
-- and it shows exactly the asked number of fraction digits.
pub format_minor-parse_minor :
    (balance_minor : Text) (decimals : ℕ) (t : Text)
    → format_minor balance_minor decimals ≡ ok t
    → (z : ℤ) × (parse_minor balance_minor ≡ ok z)
      × (parse_minor (without_point t) ≡ ok z)
      × HasFraction decimals t
unfolding format_minor
format_minor-parse_minor s d t h =
    let (_, h1, k1) = bind-eq-ok (assert_decimals d) _ h in
    let (z, h2, k2) = bind-eq-ok (parse_minor s) _ k1 in
    let m = magnitude z in
    let n = digits_of-IsNumeral (m + 1) m (omega arith) in
    let (numeral, fraction) = format_digits-reads z d (decimal m) n in
    let same : sign_of z ++ format_digits d (decimal m) ≡ t = ground arith in
    (
      z,
      h2,
      ap (λ x. parse_minor (without_point x)) (sym same)
          ∙ ap parse_minor (without_point-signed z (format_digits d (decimal m)))
          ∙ parse_minor-signed z (without_point (format_digits d (decimal m))) numeral,
      subst (HasFraction d) same fraction,
    )
