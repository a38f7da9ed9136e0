-- ===== src/Text/Render/Laws.antt =====
-- The digits of a number give the number back, so the fuel that `int_text` and `uuid_text` give is
-- enough, and the rendering is tried on values.
use stock_master.Prelude.{
  ℕ, zero, suc, ◌+◌, ◌-◌, ◌*◌, ◌/◌, ◌%◌, ◌≤◌, ◌<◌, ◌≡◌, refl, ap, ◌∙◌, Text, [], ◌∷◌, ◌++◌, ltb,
  Bool-cases, inl, inr, if◌then◌else◌, arith, codes,
}
use stock_master.Prelude.Int.{pos, negsuc, ◌+ℤ◌, ◌-ℤ◌}
use stock_master.Text.Render.{
  digit, digits_from, int_text, decimal_text, notation, placed, zeros, exponent_text, uuid_text,
  hex_digits,
}

-- the value of a digit
unfoldable undigit : ℕ → ℕ
undigit c = if ltb c b'a' then c - b'0' else c - b'a' + 10

undigit-digit : (n : ℕ) → n < 16 → undigit (digit n) ≡ n
unfolding undigit digit
undigit-digit n h = ground arith

-- the number that digits stand for, behind what was read
unfoldable value_from : ℕ → ℕ → Text → ℕ
value_from base read [] = read
value_from base read (c ∷ cs) = value_from base (read * base + undigit c) cs

value_from-snoc :
    (base read : ℕ) (cs : Text) (c : ℕ)
    → value_from base read (cs ++ c ∷ []) ≡ value_from base read cs * base + undigit c
unfolding value_from
value_from-snoc base read [] c = refl
value_from-snoc base read (d ∷ ds) c = value_from-snoc base (read * base + undigit d) ds c

module _ (base : ℕ) (hex : base ≤ 16) (whole : (n : ℕ) → n / base * base + n % base ≡ n)
    (small : (n : ℕ) → n % base < base) (shrinks : (n : ℕ) → base ≤ n → n / base < n) where
  value_from-digits_from : (fuel n : ℕ) → n < fuel → value_from base 0 (digits_from base fuel n) ≡ n
  unfolding digits_from value_from
  value_from-digits_from zero n h = absurd (omega arith)
  value_from-digits_from (suc fuel) n h = elim (Bool-cases (ltb n base)) [
    | inl below ↦ rw below (omega (arith, undigit-digit n (ground (arith, below, hex))))
    | inr above ↦
        let large : base ≤ n = ground (arith, above) in
        let rest = value_from-digits_from fuel (n / base) (omega (arith, h, shrinks n large)) in
        rw above (
          value_from-snoc base 0 (digits_from base fuel (n / base)) (digit (n % base))
          ∙ ap (λ m. m * base + undigit (digit (n % base))) rest
          ∙ ap (λ m. n / base * base + m) (undigit-digit (n % base) (omega (arith, small n, hex)))
          ∙ whole n)
  ]

int_text-value : (n : ℕ) → value_from 10 0 (int_text n) ≡ n
unfolding int_text
int_text-value n =
    value_from-digits_from 10 (omega arith) (λ m. omega arith) (λ m. omega arith)
      (λ m h. omega (arith, h)) (suc n) n (omega arith)

hex_value : (n : ℕ) → value_from 16 0 (digits_from 16 (suc n) n) ≡ n
hex_value n =
    value_from-digits_from 16 (omega arith) (λ m. omega arith) (λ m. omega arith)
      (λ m h. omega (arith, h)) (suc n) n (omega arith)

int_text_example : int_text 1205 ≡ codes "1205"
unfolding int_text digits_from digit
int_text_example = refl

decimal_text_plain :
    decimal_text (record { coefficient = negsuc 1204; exponent = negsuc 1 }) ≡ codes "-12.05"
unfolding decimal_text notation placed int_text digits_from digit ◌+ℤ◌
decimal_text_plain = refl

decimal_text_small :
    decimal_text (record { coefficient = pos 5; exponent = negsuc 6 }) ≡ codes "5E-7"
unfolding decimal_text notation placed int_text digits_from digit exponent_text zeros ◌+ℤ◌ ◌-ℤ◌
decimal_text_small = refl

uuid_text_example : uuid_text 255 ≡ codes "00000000-0000-0000-0000-0000000000ff"
unfolding uuid_text hex_digits zeros digits_from digit
uuid_text_example = refl
