-- ===== src/Decimal/Arithmetic.antt =====
-- Arithmetic of the default decimal context: 28 significant digits, half to even. Overflow and
-- underflow of the exponent are not modelled.
use stock_master.Prelude.{
  ℕ, zero, suc, ◌+◌, ◌-◌, ◌*◌, ◌/◌, ◌%◌, ◌^◌, true, false, ◌&&◌, ◌||◌, leb, ltb, ◌==◌,
  if◌then◌else◌,
}
use stock_master.Prelude.Int.{ℤ, pos, negsuc, abs, sub_ℕ, ◌+ℤ◌, ◌-ℤ◌, leb_ℤ}
use stock_master.Decimal.{Decimal, aligned}

abbrev pub precision : ℕ
precision = 28

-- The decimal digits of a number, on fuel: `fuel` is at least their number.
digit_count_on : ℕ → ℕ → ℕ
digit_count_on zero n = 0
digit_count_on (suc fuel) n = elim (n == 0) [
  | true ↦ 0
  | false ↦ suc (digit_count_on fuel (n / 10))
]

-- A number has at most as many digits as its value.
unfoldable pub digit_count : ℕ → ℕ
unfolding digit_count_on
digit_count n = digit_count_on n n

-- The number `n / m`, rounded half to even.
unfoldable pub half_even : ℕ → ℕ → ℕ
half_even n m =
    let q = n / m in
    let r = n % m in if ltb m (2 * r) || ((2 * r) == m && (q % 2) == 1) then q + 1 else q

-- The sign of `s` on the size `n`.
abbrev pub signed : ℤ → ℕ → ℤ
signed (pos _) n = pos n
signed (negsuc _) n = sub_ℕ 0 n

-- `_fix`: rounds a result to the precision of the context.
unfoldable pub fix : Decimal → Decimal
unfolding digit_count half_even ◌+ℤ◌
fix a =
    let n = digit_count (abs a.coefficient) in
    if leb n precision
    then a
    else let k = n - precision in
      let c = half_even (abs a.coefficient) (10 ^ k) in
      if leb (digit_count c) precision
      then record { coefficient = signed a.coefficient c; exponent = a.exponent +ℤ pos k }
      else record {
        coefficient = signed a.coefficient (c / 10);
        exponent = a.exponent +ℤ pos (k + 1);
      }

-- The lower of two exponents.
abbrev pub lower_exponent : Decimal → Decimal → ℤ
lower_exponent a b = if leb_ℤ a.exponent b.exponent then a.exponent else b.exponent

-- `a - b`
unfoldable pub sub : Decimal → Decimal → Decimal
unfolding aligned fix ◌-ℤ◌
sub a b = fix (record { coefficient = aligned a b -ℤ aligned b a; exponent = lower_exponent a b })

-- `a + b`
unfoldable pub add : Decimal → Decimal → Decimal
unfolding aligned fix ◌+ℤ◌
add a b = fix (record { coefficient = aligned a b +ℤ aligned b a; exponent = lower_exponent a b })

-- the sign of a product or a quotient on the size `n`
abbrev pub product_sign : ℤ → ℤ → ℕ → ℤ
product_sign (pos _) (pos _) n = pos n
product_sign (negsuc _) (negsuc _) n = pos n
product_sign _ _ n = sub_ℕ 0 n

-- `a * b`
unfoldable pub mul : Decimal → Decimal → Decimal
unfolding fix ◌+ℤ◌
mul a b = fix (record {
  coefficient = product_sign a.coefficient b.coefficient (abs a.coefficient * abs b.coefficient);
  exponent = a.exponent +ℤ b.exponent;
})

-- The loop that takes zeros off an exact quotient, at most `rounds` times, and the count taken.
trim_zeros : ℕ → ℕ → ℕ → ℕ × ℕ
trim_zeros zero c taken = (c, taken)
trim_zeros (suc rounds) c taken = elim ((c % 10) == 0) [
  | true ↦ trim_zeros rounds (c / 10) (taken + 1)
  | false ↦ (c, taken)
]

-- An inexact quotient is marked by a last digit that does not round as a tie.
abbrev sticky : ℕ → ℕ
sticky c = if (c % 5) == 0 then c + 1 else c

-- The size of a quotient of sizes `n` and `m`, and how far its exponent lies below the difference
-- of the exponents: `up` places were added to `n`, `down` to `m`.
unfoldable pub quotient : ℕ → ℕ → ℕ → ℕ → ℕ × ℕ
unfolding trim_zeros
quotient n m up down =
    let num = n * 10 ^ up in
    let den = m * 10 ^ down in
    if (num % den) == 0
    then (let (c, taken) = trim_zeros (up - down) (num / den) 0 in (c, up - taken))
    else (sticky (num / den), up)

-- `a / b`; the callers test `b` for zero.
unfoldable pub div : Decimal → Decimal → Decimal
unfolding fix quotient digit_count ◌+ℤ◌ ◌-ℤ◌
div a b =
    let n = abs a.coefficient in
    let m = abs b.coefficient in
    let up = (digit_count m + precision + 1) - digit_count n in
    let down = digit_count n - (digit_count m + precision + 1) in
    let (c, below) = quotient n m up down in
    if n == 0
    then record { coefficient = pos 0; exponent = a.exponent -ℤ b.exponent }
    else fix (record {
      coefficient = product_sign a.coefficient b.coefficient c;
      exponent = (a.exponent -ℤ b.exponent) +ℤ sub_ℕ down below;
    })
