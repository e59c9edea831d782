-- ===== src/Cli/Format/Bounds.antt =====
-- `formatBytes` of internal/cli/logs.go: where its loop ends.
use native.Mathlib.Nat.{mul_assoc, mul-le-mul_left}
use tokenlive_standalone.Prelude.{
  ℕ, zero, suc, ◌+◌, ◌*◌, ◌/◌, ◌^◌, ◌≤◌, ◌<◌, false, some, ◌≡◌, refl, ap, inl, inr, arith,
  Bool-cases, leb, ltb, Bytes, bytes, List, [], ◌∷◌, ◌++◌, length,
}
use tokenlive_standalone.Cli.Format.{unit, scale_from, scale, prefix_at, format_bytes}

-- 1024, raised to one more than the exponent.
unfoldable pub unit_power : ℕ → ℕ
unit_power zero = unit
unit_power (suc e) = unit_power e * unit

-- A divisor that leaves between one and a thousand and twenty-three whole units.
pub record IsScaled (b div exp : ℕ) : Type 0 where
  pub is_power : div ≡ unit_power exp
  pub below : div ≤ b
  pub above : b < div * unit

record IsScaling (b n div exp : ℕ) : Type 0 where
  is_power : div ≡ unit_power exp
  positive : 1 ≤ n
  low : div * n ≤ b
  high : b < div * suc n

IsScaling-next :
    (b n div exp : ℕ)
    → unit ≤ n
    → IsScaling b n div exp
    → IsScaling b (n / unit) (div * unit) (suc exp)
unfolding unit_power
IsScaling-next b n div exp h s = record {
  is_power = ap (λ d. d * unit) s.is_power;
  positive = omega (arith, h);
  low = omega (arith, s.low, mul_assoc div unit (n / unit), mul-le-mul_left div under);
  high = omega (arith, s.high, mul_assoc div unit (suc (n / unit)), mul-le-mul_left div over);
}
  where
    under : unit * (n / unit) ≤ n
    under = omega arith

    over : suc n ≤ unit * suc (n / unit)
    over = omega arith

-- What a scaling ends as.
pub record Ends (b k exp : ℕ) (r : ℕ × ℕ) : Type 0 where
  pub scaled : IsScaled b r.0 r.1
  pub bounded : r.1 ≤ exp + k

Ends-last : (b n div exp k : ℕ) → n < unit → IsScaling b n div exp → Ends b k exp (div, exp)
Ends-last b n div exp k h s = record {
  scaled = record {
    is_power = s.is_power;
    below = omega (arith, s.low, mul-le-mul_left div s.positive);
    above = omega (arith, s.high, mul-le-mul_left div (lift h));
  };
  bounded = omega arith;
}
  where
    lift : n < unit → suc n ≤ unit
    lift q = q

scale_from-Ends :
    (k b n div exp : ℕ)
    → n < unit_power k
    → IsScaling b n div exp
    → Ends b k exp (scale_from (suc k) n div exp)
unfolding scale_from unit_power
scale_from-Ends zero b n div exp h s =
    let small : leb unit n ≡ false = ground (arith, h) in rw small (Ends-last b n div exp 0 h s)
scale_from-Ends (suc k) b n div exp h s = elim (Bool-cases (leb unit n)) [
  | inr y ↦ rw y (Ends-last b n div exp (suc k) (ground (arith, y)) s)
  | inl y ↦
      let e =
        scale_from-Ends k b (n / unit) (div * unit) (suc exp) (omega (arith, h))
          (IsScaling-next b n div exp (ground (arith, y)) s) in
      rw y (record { scaled = e.scaled; bounded = omega (arith, e.bounded) })
]

prefix_found : (cs : List ℕ) (exp : ℕ) → exp < length cs → (c : ℕ) × (prefix_at cs exp ≡ some c)
prefix_found [] exp h = absurd (omega (arith, h))
prefix_found (c ∷ cs) zero h = (c, refl)
prefix_found (c ∷ cs) (suc exp) h = prefix_found cs exp (omega (arith, h))

-- For a size of at least 1024 and below 2^63, the divisor of `formatBytes` is 1024 to the power of
-- one more than the exponent and goes into the size between 1 and 1023 times, the exponent has a
-- prefix, and the result is a text.
pub format_bytes_lem :
    (quotient : ℕ → ℕ → Bytes) (b : ℕ)
    → unit ≤ b
    → b < 2 ^ 63
    → IsScaled b (scale b).0 (scale b).1
      × ((scale b).1 < 6)
      × ((text : Bytes) × (format_bytes quotient b ≡ some text))
unfolding scale format_bytes unit_power
format_bytes_lem quotient b lo hi =
    let start : IsScaling b (b / unit) unit 0 = record {
      is_power = first_power;
      positive = omega (arith, lo);
      low = omega arith;
      high = omega arith;
    } in
    let e = scale_from-Ends 5 b (b / unit) unit 0 fifth start in
    let (c, found) = prefix_found (bytes "KMGTPE") (scale b).1 (omega (arith, e.bounded)) in
    let large : ltb b unit ≡ false = ground (arith, lo) in
    (
      e.scaled,
      omega (arith, e.bounded),
      (quotient b (scale b).0 ++ (bytes " " ++ (c ∷ bytes "B")), rw (large, found) refl),
    )
  where
    first_power : unit ≡ unit_power 0
    first_power = refl

    fifth : b / unit < unit_power 5
    fifth = omega (arith, hi)
