-- ===== src/Text/Laws.antt =====
-- What normalising a text guarantees.
use stock_master.Prelude.{ℕ, ◌≡◌, refl, Text, [], ◌∷◌, inl, inr, true, false, Bool-cases, arith}
use stock_master.Text.{
  is_space, strip_left, strip_cons, strip_right, upper_code, upper, is_upper, is_symbol_code,
  all_codes, is_symbol, normalize_symbol,
}

strip_right-strip_cons :
    (c : ℕ) (s : Text) → strip_right s ≡ s → strip_right (strip_cons c s) ≡ strip_cons c s
unfolding strip_right
strip_right-strip_cons c [] h = elim (Bool-cases (is_space c)) [
  | inl e ↦ rw e
  | inr e ↦ rw e (rw e)
]
strip_right-strip_cons c (d ∷ s) h = rw h

pub strip_right_idem : (s : Text) → strip_right (strip_right s) ≡ strip_right s
unfolding strip_right
strip_right_idem [] = refl
strip_right_idem (c ∷ s) = strip_right-strip_cons c (strip_right s) (strip_right_idem s)

upper_code-is_symbol : (c : ℕ) → is_symbol_code c ≡ true → upper_code c ≡ c
unfolding is_symbol_code upper_code
upper_code-is_symbol c h = ground arith

is_space-is_symbol : (c : ℕ) → is_symbol_code c ≡ true → is_space c ≡ false
unfolding is_symbol_code is_space
is_space-is_symbol c h = ground arith

is_upper-is_symbol : (c : ℕ) → is_upper c ≡ true → is_symbol_code c ≡ true
unfolding is_symbol_code
is_upper-is_symbol c h = ground arith

upper_of_symbol : (s : Text) → all_codes is_symbol_code s ≡ true → upper s ≡ s
unfolding all_codes upper
upper_of_symbol [] h = refl
upper_of_symbol (c ∷ s) h = ground (arith, upper_code-is_symbol c, upper_of_symbol s)

strip_right_of_symbol : (s : Text) → all_codes is_symbol_code s ≡ true → strip_right s ≡ s
unfolding all_codes strip_right
strip_right_of_symbol [] h = refl
strip_right_of_symbol (c ∷ []) h = ground (arith, is_space-is_symbol c)
strip_right_of_symbol (c ∷ d ∷ s) h = ground (arith, strip_right_of_symbol (d ∷ s))

is_symbol-all_codes : (s : Text) → is_symbol s ≡ true → all_codes is_symbol_code s ≡ true
unfolding is_symbol
is_symbol-all_codes [] h = refl
is_symbol-all_codes (c ∷ s) h = ground (arith, is_upper-is_symbol c)

strip_left_of_symbol : (s : Text) → all_codes is_symbol_code s ≡ true → strip_left s ≡ s
unfolding all_codes strip_left
strip_left_of_symbol [] h = refl
strip_left_of_symbol (c ∷ s) h = ground (arith, is_space-is_symbol c)

-- A text that the symbol pattern accepts is left alone by the normalisation.
pub normalize_symbol_of_symbol : (s : Text) → is_symbol s ≡ true → normalize_symbol s ≡ s
unfolding normalize_symbol
normalize_symbol_of_symbol s h =
    let k = is_symbol-all_codes s h in
    rw (strip_left_of_symbol s k, strip_right_of_symbol s k) (upper_of_symbol s k)
