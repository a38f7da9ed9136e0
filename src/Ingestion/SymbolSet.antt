-- ===== src/Ingestion/SymbolSet.antt =====
-- app/services/ingestion_runner.py: the set of the symbols of a run has each symbol once, and each matches the
-- pattern.
use stock_master.Prelude.{
  ◌≡◌, ◌≢◌, refl, Text, List, [], ◌∷◌, true, false, ok, Bool-cases, inl, inr, arith, subst, All,
  Result-cases, text_eq,
}
use stock_master.Text.{strip, upper, is_symbol}
use stock_master.Ingestion.Outcomes.{
  text_before, add_symbol, normalize_symbols, normalize_run_symbol,
}
use stock_master.Ingestion.Recorded.{Unequal}
use stock_master.Ingestion.Sorted.{Ascending, add_symbol-case}

before_nil : (s : Text) → text_before s [] ≢ true
unfolding text_before
before_nil [] h = absurd (ground (arith, h))
before_nil (a ∷ s) h = absurd (ground (arith, h))

text_before_trans :
    (r s t : Text) → text_before r s ≡ true → text_before s t ≡ true → text_before r t ≡ true
unfolding text_before
text_before_trans r s [] h k = absurd (before_nil s k)
text_before_trans [] s (c ∷ t) h k = refl
text_before_trans (a ∷ r) [] (c ∷ t) h k = absurd (ground (arith, h))
text_before_trans (a ∷ r) (b ∷ s) (c ∷ t) h k = ground (arith, h, k, text_before_trans r s t)

text_before_ne : (s t : Text) → text_before s t ≡ true → text_eq s t ≡ false
unfolding text_eq text_before
text_before_ne [] [] h = absurd (ground (arith, h))
text_before_ne [] (b ∷ t) h = refl
text_before_ne (a ∷ s) [] h = refl
text_before_ne (a ∷ s) (b ∷ t) h = ground (arith, h, text_before_ne s t)

text_before-Unequal :
    (x y : Text) (ys : List Text)
    → text_before x y ≡ true
    → Ascending (y ∷ ys)
    → All (λ z. text_eq x z ≡ false) (y ∷ ys)
text_before-Unequal x y [] h a = (text_before_ne x y h, tt)
text_before-Unequal x y (z ∷ zs) h a =
    (text_before_ne x y h, text_before-Unequal x z zs (text_before_trans x y z h a.0) a.1)

pub Ascending-Unequal : (xs : List Text) → Ascending xs → Unequal xs
Ascending-Unequal [] a = tt
Ascending-Unequal (x ∷ []) a = (tt, tt)
Ascending-Unequal (x ∷ y ∷ ys) a =
    (text_before-Unequal x y ys a.0 a.1, Ascending-Unequal (y ∷ ys) a.1)

-- Every one matches the pattern of a symbol.
abbrev pub AllSymbols : List Text → Type 0
AllSymbols = All (λ x. is_symbol x ≡ true)

add_symbol-AllSymbols :
    (symbol : Text) (xs : List Text)
    → is_symbol symbol ≡ true
    → AllSymbols xs
    → AllSymbols (add_symbol symbol xs)
unfolding add_symbol
add_symbol-AllSymbols symbol [] h a = (h, tt)
add_symbol-AllSymbols symbol (x ∷ xs) h a =
    add_symbol-case AllSymbols symbol x xs a (λ f. (h, a))
      (λ f. (a.0, add_symbol-AllSymbols symbol xs h a.1))

normalize_run_symbol-is_symbol :
    (symbol clean : Text) → normalize_run_symbol symbol ≡ ok clean → is_symbol clean ≡ true
unfolding normalize_run_symbol
normalize_run_symbol-is_symbol symbol clean h =
    elim (Bool-cases (is_symbol (upper (strip symbol)))) [
      | inl e ↦
          let same : upper (strip symbol) ≡ clean = ground (arith, h, e) in
          subst (λ x. is_symbol x ≡ true) same e
      | inr e ↦ absurd (ground (arith, h, e))
    ]

pub normalize_symbols-AllSymbols :
    (symbols set : List Text) → normalize_symbols symbols ≡ ok set → AllSymbols set
unfolding normalize_symbols
normalize_symbols-AllSymbols [] set h =
    let empty : [] ≡ set = ground (arith, h) in subst AllSymbols empty tt
normalize_symbols-AllSymbols (symbol ∷ symbols) set h =
    elim (Result-cases (normalize_run_symbol symbol)) [
      | inl (e, bad) ↦ absurd (ground (arith, h, bad))
      | inr (clean, good) ↦ elim (Result-cases (normalize_symbols symbols)) [
        | inl (e, bad) ↦ absurd (ground (arith, h, good, bad))
        | inr (others, rest) ↦
            let whole : add_symbol clean others ≡ set = ground (arith, h, good, rest) in
            subst AllSymbols whole (
              add_symbol-AllSymbols clean others (normalize_run_symbol-is_symbol symbol clean good)
                (normalize_symbols-AllSymbols symbols others rest))
      ]
    ]
