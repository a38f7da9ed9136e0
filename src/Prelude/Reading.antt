-- ===== src/Prelude/Reading.antt =====
-- The models that are built from the rows of a query, one for each: `[model_of(row) for row in rows]`.
use mathlib.Core.Path.{◌≡◌, refl, sym, ◌∙◌}
use mathlib.Core.List.{List, [], ◌∷◌, ◌++◌, Memᴰ}
use Prim.Native.Nat.{ℕ}
use native.Mathlib.Omega.{arith}
use stock_master.Prelude.Lists.{All, length}
use stock_master.Prelude.Order.Distinct.{Apart, Distinct}
use stock_master.Prelude.Outcome.{Result, ok, err}

module _ {A : Type 0} (make : A → Result A) where
  unfoldable pub read_all : List A → Result (List A)
  read_all [] = ok []
  read_all (row ∷ rows) =
      let others = read_all rows in
      elim (make row) [
        | err raised ↦ err raised
        | ok model ↦ elim others [ err raised ↦ err raised | ok models ↦ ok (model ∷ models) ]
      ]

-- The models of a list of rows, one for each.
pub data Reads {A : Type 0} (make : A → Result A) : List A → List A → Type 0 where
  none_left : Reads make [] []
  one_more :
      {row model : A} {rows models : List A}
      → make row ≡ ok model
      → Reads make rows models
      → Reads make (row ∷ rows) (model ∷ models)

module _ {A : Type 0} (make : A → Result A) where
  pub read_all-Reads :
      (rows models : List A) → read_all make rows ≡ ok models → Reads make rows models
  unfolding read_all
  read_all-Reads [] [] h = none_left
  read_all-Reads [] (m ∷ ms) h = absurd (ground arith)
  read_all-Reads (row ∷ rows) [] h = absurd (ground arith)
  read_all-Reads (row ∷ rows) (m ∷ ms) h =
      one_more (ground arith) (read_all-Reads rows ms (ground arith))

  pub read_all-append :
      (xs ys ms bs : List A)
      → read_all make xs ≡ ok ms
      → read_all make ys ≡ ok bs
      → read_all make (xs ++ ys) ≡ ok (ms ++ bs)
  unfolding read_all
  read_all-append [] ys ms bs h k = ground (arith, h, k)
  read_all-append (x ∷ xs) ys [] bs h k = absurd (ground (arith, h))
  read_all-append (x ∷ xs) ys (a ∷ ms) bs h k = ground (arith, h, k, read_all-append xs ys ms bs)

module _ {A : Type 0} {make : A → Result A} where
  pub Reads-length : {rows models : List A} → Reads make rows models → length models ≡ length rows
  Reads-length none_left = refl
  Reads-length (one_more m r) = omega (arith, Reads-length r)

  pub Reads-nil : {models : List A} → Reads make [] models → models ≡ []
  Reads-nil none_left = refl

  -- What building a model makes of a property of the row holds of every model.
  pub Reads-All :
      (P Q : A → Type 0)
      → ((row model : A) → make row ≡ ok model → P row → Q model)
      → {rows models : List A} → Reads make rows models
      → All P rows
      → All Q models
  Reads-All P Q f none_left h = tt
  Reads-All P Q f (one_more {row} {model} m r) h = (f row model m h.0, Reads-All P Q f r h.1)

  pub Reads-Memᴰ :
      {rows models : List A} (x model : A)
      → Reads make rows models
      → Memᴰ x rows
      → make x ≡ ok model
      → Memᴰ model models
  Reads-Memᴰ x model none_left m h = elim m [ ]
  Reads-Memᴰ x model (one_more {row} {model = y} made r) (Memᴰ.head eq) h =
      let same : make row ≡ ok model = rw (← eq) h in
      let answers : model ≡ y = ground (arith, same, made) in Memᴰ.head answers
  Reads-Memᴰ x model (one_more made r) (Memᴰ.tail m) h = Memᴰ.tail (Reads-Memᴰ x model r m h)

  module _ (key : A → ℕ) (keeps : (row model : A) → make row ≡ ok model → key model ≡ key row) where
    Reads-Apart :
        {rows models : List A} (row model : A)
        → key model ≡ key row
        → Reads make rows models
        → All (Apart key row) rows
        → All (Apart key model) models
    Reads-Apart row model same r h =
        Reads-All (Apart key row) (Apart key model) (λ x y m a p. a (sym same ∙ p ∙ keeps x y m)) r
          h

    -- Models have different keys when their rows have.
    pub Reads-Distinct :
        {rows models : List A} → Reads make rows models → Distinct key rows → Distinct key models
    Reads-Distinct none_left h = tt
    Reads-Distinct (one_more {row} {model} m r) h =
        (Reads-Apart row model (keeps row model m) r h.0, Reads-Distinct r h.1)
