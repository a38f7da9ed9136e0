-- ===== src/Ingestion/Sorted.antt =====
-- app/services/ingestion_runner.py: the sorted set of the symbols of a run.
use stock_master.Prelude.{
  ◌≡◌, refl, Text, List, [], ◌∷◌, true, false, ok, Bool-cases, inl, inr, arith, subst, Result-cases,
  text_eq,
}
use stock_master.Ingestion.Outcomes.{
  text_before, add_symbol, normalize_symbols, normalize_run_symbol,
}

-- Each text comes before the next one.
abbrev pub Ascending : List Text → Type 0
Ascending [] = Unit
Ascending (x ∷ []) = Unit
Ascending (x ∷ y ∷ ys) = (text_before x y ≡ true) × Ascending (y ∷ ys)

text_before_total :
    (s t : Text) → text_eq s t ≡ false → text_before s t ≡ false → text_before t s ≡ true
unfolding text_eq text_before
text_before_total [] [] h k = absurd (ground arith)
text_before_total [] (b ∷ t) h k = absurd (ground arith)
text_before_total (a ∷ s) [] h k = refl
text_before_total (a ∷ s) (b ∷ t) h k = ground (arith, text_before_total s t)

-- What the tests of an addition decide.
pub add_symbol-case :
    (P : List Text → Type 0) (symbol x : Text) (xs : List Text)
    → P (x ∷ xs)
    → (text_before symbol x ≡ true → P (symbol ∷ x ∷ xs))
    → (text_before x symbol ≡ true → P (x ∷ add_symbol symbol xs))
    → P (add_symbol symbol (x ∷ xs))
unfolding add_symbol
add_symbol-case P symbol x xs here before behind = elim (Bool-cases (text_eq symbol x)) [
  | inl e ↦ rw e here
  | inr e ↦ elim (Bool-cases (text_before symbol x)) [
    | inl f ↦ rw (e, f) (before f)
    | inr f ↦ rw (e, f) (behind (text_before_total symbol x e f))
  ]
]

add_symbol-under :
    (w symbol : Text) (xs : List Text)
    → text_before w symbol ≡ true
    → Ascending (w ∷ xs)
    → Ascending (w ∷ add_symbol symbol xs)
unfolding add_symbol
add_symbol-under w symbol [] h a = (h, tt)
add_symbol-under w symbol (x ∷ xs) h a =
    add_symbol-case (λ ys. Ascending (w ∷ ys)) symbol x xs a (λ f. (h, (f, a.1)))
      (λ f. (a.0, add_symbol-under x symbol xs f a.1))

add_symbol-Ascending :
    (symbol : Text) (xs : List Text) → Ascending xs → Ascending (add_symbol symbol xs)
unfolding add_symbol
add_symbol-Ascending symbol [] a = tt
add_symbol-Ascending symbol (x ∷ xs) a =
    add_symbol-case Ascending symbol x xs a (λ f. (f, a)) (λ f. add_symbol-under x symbol xs f a)

pub normalize_symbols-Ascending :
    (symbols set : List Text) → normalize_symbols symbols ≡ ok set → Ascending set
unfolding normalize_symbols
normalize_symbols-Ascending [] set h =
    let empty : [] ≡ set = ground (arith, h) in subst Ascending empty tt
normalize_symbols-Ascending (symbol ∷ symbols) set h =
    elim (Result-cases (normalize_run_symbol symbol)) [
      | inl (e, bad) ↦ absurd (ground (arith, h, bad))
      | inr (clean, good) ↦ elim (Result-cases (normalize_symbols symbols)) [
        | inl (e, bad) ↦ absurd (ground (arith, h, good, bad))
        | inr (others, rest) ↦
            let whole : add_symbol clean others ≡ set = ground (arith, h, good, rest) in
            subst Ascending whole
              (add_symbol-Ascending clean others (normalize_symbols-Ascending symbols others rest))
      ]
    ]
