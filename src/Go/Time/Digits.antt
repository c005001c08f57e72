-- ===== src/Go/Time/Digits.antt =====
-- The numbers and the fraction in the text of a time.
use mesthastic_caltopo_bridg.Prelude.{
  ℕ, zero, suc, ◌+◌, ◌-◌, ◌*◌, ◌/◌, ◌%◌, ◌^◌, ◌<◌, ◌≡◌, refl, ap, ◌∙◌, true, false, some, [], ◌∷◌,
  ◌++◌, arith, ==_iff, leb, ◌==◌, Bool-cases, inl, inr,
}
use mesthastic_caltopo_bridg.Go.Text.{Text}
use mesthastic_caltopo_bridg.Go.Time.{second, digit, pad2, pad4, fraction, format_fraction}
use mesthastic_caltopo_bridg.Go.Time.Parse.{number, fraction_value, nanos_value}

pub number-pad2 : (n : ℕ) (r : Text) → n < 100 → number 2 0 (pad2 n ++ r) ≡ some (n, r)
unfolding number
number-pad2 n r h = ground arith

pub number-pad4 : (n : ℕ) (r : Text) → n < 10000 → number 4 0 (pad4 n ++ r) ≡ some (n, r)
unfolding number
number-pad4 n r h = ground arith

ten_pow_pos : (k : ℕ) → 0 < 10 ^ k
ten_pow_pos zero = omega arith
ten_pow_pos (suc k) = omega (arith, ten_pow_pos k)

-- A number below ten times `p`: its first digit, and the rest.
first_digit : (n p : ℕ) → 0 < p → n < 10 * p → (n / p < 10) × (n / p * p + n % p ≡ n) × (n % p < p)
first_digit n p h k = (grind arith, grind arith, grind arith)

one_digit :
    (k acc d : ℕ) (cs : Text)
    → d < 10
    → fraction_value (suc k) acc (digit d ∷ cs) ≡ fraction_value k (acc + d * 10 ^ k) cs
unfolding fraction_value
one_digit k acc d cs h =
    let same : digit d - 48 ≡ d = omega arith in
    let low : leb 48 (digit d) ≡ true = ground arith in
    let high : leb (digit d) 57 ≡ true = ground arith in rw (low, high, same) refl

fraction_value_lem :
    (k acc n : ℕ) → n < 10 ^ k → fraction_value k acc (fraction k n ++ 0x5a ∷ []) ≡ some (acc + n)
unfolding fraction_value fraction
fraction_value_lem zero acc n h = ground arith
fraction_value_lem (suc k) acc n h = elim (Bool-cases (n == 0)) [
  | inl e ↦ rw e (ground (arith, e))
  | inr e ↦
      let p : ℕ = 10 ^ k in
      let (small, whole, rest) = first_digit n p (ten_pow_pos k) (omega arith) in
      rw e (
        one_digit k acc (n / p) (fraction k (n % p) ++ 0x5a ∷ []) small
        ∙ fraction_value_lem k (acc + n / p * p) (n % p) rest
        ∙ ap some (omega (arith, whole)))
]

format_fraction-pos : (n : ℕ) → (n == 0) ≡ false → format_fraction n ≡ 0x2e ∷ fraction 9 n
unfolding format_fraction fraction
format_fraction-pos n e = rw e refl

nanos_value-point : (cs : Text) → nanos_value (0x2e ∷ cs) ≡ fraction_value 9 0 cs
unfolding nanos_value fraction_value
nanos_value-point cs = refl

whole_second : nanos_value (format_fraction 0 ++ 0x5a ∷ []) ≡ some 0
unfolding nanos_value format_fraction
whole_second = refl

pub nanos_value_lem : (n : ℕ) → n < second → nanos_value (format_fraction n ++ 0x5a ∷ []) ≡ some n
nanos_value_lem n h = elim (Bool-cases (n == 0)) [
  | inl e ↦ rw ((==_iff n 0).0 e) whole_second
  | inr e ↦ rw (format_fraction-pos n e) (
      nanos_value-point (fraction 9 n ++ 0x5a ∷ [])
      ∙ fraction_value_lem 9 0 n (omega arith)
      ∙ ap some (omega arith))
]
