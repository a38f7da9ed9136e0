-- ===== src/Text/Render.antt =====
-- Python's `str()` of the values that app/services/thesis_monitoring_service.py writes into texts:
-- an `int`, a `Decimal` and a `UUID`, which the models hold as its 128-bit number.
mod Laws
use stock_master.Prelude.{
  ℕ, zero, suc, ◌+◌, ◌-◌, ◌*◌, ◌/◌, ◌%◌, Text, List, [], ◌∷◌, ◌++◌, Bool, ◌&&◌, ltb, leb, ◌==◌,
  if◌then◌else◌, length, take, drop, codes,
}
use stock_master.Prelude.Int.{ℤ, pos, negsuc, ◌+ℤ◌, ◌-ℤ◌, ltb_ℤ, leb_ℤ, abs}
use stock_master.Decimal.{Decimal}

-- the digit of a number below sixteen
unfoldable pub digit : ℕ → ℕ
digit n = if ltb n 10 then b'0' + n else b'a' + (n - 10)

-- the digits of a number in a base, when the fuel exceeds their number
unfoldable pub digits_from : ℕ → ℕ → ℕ → Text
digits_from base zero n = []
digits_from base (suc fuel) n =
    let rest = digits_from base fuel (n / base) in
    if ltb n base then digit n ∷ [] else rest ++ digit (n % base) ∷ []

-- `str(n)`
unfoldable pub int_text : ℕ → Text
int_text n = digits_from 10 (suc n) n

unfoldable pub zeros : ℕ → Text
zeros zero = []
zeros (suc n) = b'0' ∷ zeros n

abbrev signed : ℤ → Text → Text
signed (pos n) text = text
signed (negsuc n) text = b'-' ∷ text

-- the exponent of the scientific notation, `E+3` or `E-7`
unfoldable pub exponent_text : ℤ → Text
exponent_text (pos zero) = []
exponent_text (pos (suc n)) = b'E' ∷ b'+' ∷ int_text (suc n)
exponent_text (negsuc n) = b'E' ∷ b'-' ∷ int_text (suc n)

-- the digits with the point behind the first `place` of them
unfoldable pub placed : ℤ → Text → Text
placed (pos zero) digits = codes "0." ++ digits
placed (negsuc n) digits = codes "0." ++ zeros (suc n) ++ digits
placed (pos (suc n)) digits =
    if leb (length digits) (suc n)
    then digits ++ zeros (suc n - length digits)
    else take (suc n) digits ++ b'.' ∷ drop (suc n) digits

-- the digits, plain where no zeros are needed behind them and at most five in front of them
unfoldable pub notation : ℤ → Text → Text
notation exponent digits =
    let left = exponent +ℤ pos (length digits) in
    if leb_ℤ exponent (pos 0) && ltb_ℤ (negsuc 5) left
    then placed left digits
    else placed (pos 1) digits ++ exponent_text (left -ℤ pos 1)

-- `str(d)`
unfoldable pub decimal_text : Decimal → Text
decimal_text d = signed d.coefficient (notation d.exponent (int_text (abs d.coefficient)))

-- the 32 hexadecimal digits of a 128-bit number
unfoldable pub hex_digits : ℕ → Text
hex_digits n = let digits = digits_from 16 (suc n) n in zeros (32 - length digits) ++ digits

-- `str(uuid)`
unfoldable pub uuid_text : ℕ → Text
uuid_text n =
    let digits = hex_digits n in
    take 8 digits
    ++ b'-' ∷ take 4 (drop 8 digits)
    ++ b'-' ∷ take 4 (drop 12 digits)
    ++ b'-' ∷ take 4 (drop 16 digits)
    ++ b'-' ∷ drop 20 digits
