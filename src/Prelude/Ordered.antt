-- ===== src/Prelude/Ordered.antt =====
-- Tables in the order of a strict test, for ORDER BY with a condition: where the rows stand that
-- come after a given one.
use Prim.Native.Nat.{ℕ, zero, suc, ◌≤◌}
use mathlib.Core.Bool.{Bool, true, false, ◌||◌, ◌&&◌}
use mathlib.Core.Option.{Option, none, some}
use mathlib.Core.List.{List, [], ◌∷◌, ◌++◌}
use mathlib.Core.Path.{◌≡◌, refl, ap, ◌∙◌, sym, subst}
use mathlib.Core.Logic.{inl, inr}
use native.Mathlib.Omega.{arith}
use simplebank.Prelude.Tests.{Bool-cases, if◌then◌else◌}
use simplebank.Prelude.Tables.{length, All, take, drop, select, insert_by, order_by}

module _ {ℓ} {A : Type ℓ} where
  abbrev pub last : List A → Option A
  last [] = none
  last (x ∷ []) = some x
  last (x ∷ y ∷ ys) = last (y ∷ ys)

  pub select-select :
      (p q : A → Bool) (xs : List A) → select (λ x. p x && q x) xs ≡ select q (select p xs)
  select-select p q [] = refl
  select-select p q (x ∷ xs) = ground (arith, select-select p q xs)

  pub select_whole : (p : A → Bool) (xs : List A) → All (λ x. p x ≡ true) xs → select p xs ≡ xs
  select_whole p [] h = refl
  select_whole p (x ∷ xs) h = ground (arith, select_whole p xs h.1)

  pub All-select : (P : A → Type 0) (p : A → Bool) (xs : List A) → All P xs → All P (select p xs)
  All-select P p [] h = tt
  All-select P p (x ∷ xs) h = elim (Bool-cases (p x)) [
    | inl hit ↦ rw hit (h.0, All-select P p xs h.1)
    | inr miss ↦ rw miss (All-select P p xs h.1)
  ]

  pub take-drop : (n : ℕ) (xs : List A) → take n xs ++ drop n xs ≡ xs
  take-drop zero xs = refl
  take-drop (suc n) [] = refl
  take-drop (suc n) (x ∷ xs) = ap (λ ys. x ∷ ys) (take-drop n xs)

  All-drop : (P : A → Type 0) (d : ℕ) (xs : List A) → All P xs → All P (drop d xs)
  All-drop P zero xs h = h
  All-drop P (suc d) [] h = tt
  All-drop P (suc d) (x ∷ xs) h = All-drop P d xs h.1

  All-take : (P : A → Type 0) (n : ℕ) (xs : List A) → All P xs → All P (take n xs)
  All-take P zero xs h = tt
  All-take P (suc n) [] h = tt
  All-take P (suc n) (x ∷ xs) h = (h.0, All-take P n xs h.1)

  last_has : (P : A → Type 0) (xs : List A) {x : A} → All P xs → last xs ≡ some x → P x
  last_has P [] h e = absurd (cc e)
  last_has P (y ∷ []) h e = subst P (cc e) h.0
  last_has P (y ∷ z ∷ zs) h e = last_has P (z ∷ zs) h.1 e

  -- The last row of a page has what all rows have.
  pub page_last_has :
      (P : A → Type 0) (n d : ℕ) (xs : List A) {x : A}
      → All P xs
      → last (take n (drop d xs)) ≡ some x
      → P x
  page_last_has P n d xs h e =
      last_has P (take n (drop d xs)) (All-take P n (drop d xs) (All-drop P d xs h)) e

  -- Every row comes before those that follow it.
  abbrev pub Sorted : (A → A → Bool) → List A → Type 0
  Sorted before [] = Unit
  Sorted before (x ∷ xs) = All (λ y. before x y ≡ true) xs × Sorted before xs

  -- Of two rows one comes before the other.
  abbrev pub Comparable : (A → A → Bool) → List A → Type 0
  Comparable before [] = Unit
  Comparable before (x ∷ xs) =
      All (λ y. (before x y || before y x) ≡ true) xs × Comparable before xs

  All-insert_by :
      (P : A → Type 0) (before : A → A → Bool) (x : A) (xs : List A)
      → P x
      → All P xs
      → All P (insert_by before x xs)
  All-insert_by P before x [] p h = (p, tt)
  All-insert_by P before x (y ∷ ys) p h = elim (Bool-cases (before x y)) [
    | inl first ↦ rw first (p, h)
    | inr after ↦ rw after (h.0, All-insert_by P before x ys p h.1)
  ]

  All-order_by :
      (P : A → Type 0) (before : A → A → Bool) (xs : List A) → All P xs → All P (order_by before xs)
  All-order_by P before [] h = tt
  All-order_by P before (x ∷ xs) h =
      All-insert_by P before x (order_by before xs) h.0 (All-order_by P before xs h.1)

module _ {ℓ} {A : Type ℓ} (before : A → A → Bool)
    (trans : (x y z : A) → before x y ≡ true → before y z ≡ true → before x z ≡ true)
    (irrefl : (x : A) → before x x ≡ false) where
  asym : (x y : A) → before x y ≡ true → before y x ≡ false
  asym x y h = elim (Bool-cases (before y x)) [
    | inl back ↦ absurd (cc (trans x y x h back, irrefl x))
    | inr forth ↦ forth
  ]

  All-trans :
      (x y : A) (zs : List A)
      → before x y ≡ true
      → All (λ z. before y z ≡ true) zs
      → All (λ z. before x z ≡ true) zs
  All-trans x y [] h all = tt
  All-trans x y (z ∷ zs) h all = (trans x y z h all.0, All-trans x y zs h all.1)

  insert_by-Sorted :
      (x : A) (xs : List A)
      → Sorted before xs
      → All (λ y. (before x y || before y x) ≡ true) xs
      → Sorted before (insert_by before x xs)
  insert_by-Sorted x [] s c = (tt, tt)
  insert_by-Sorted x (y ∷ ys) s c = elim (Bool-cases (before x y)) [
    | inl first ↦ rw first ((first, All-trans x y ys first s.0), s)
    | inr after ↦ rw after (
      All-insert_by (λ z. before y z ≡ true) before x ys (ground (arith, c.0)) s.0,
      insert_by-Sorted x ys s.1 c.1,
    )
  ]

  pub order_by-Sorted : (xs : List A) → Comparable before xs → Sorted before (order_by before xs)
  order_by-Sorted [] c = tt
  order_by-Sorted (x ∷ xs) c =
      insert_by-Sorted x (order_by before xs) (order_by-Sorted xs c.1)
        (All-order_by (λ y. (before x y || before y x) ≡ true) before xs c.0)

  -- A row that comes before all rows is inserted first.
  insert_by-first :
      (x : A) (xs : List A) → All (λ y. before x y ≡ true) xs → insert_by before x xs ≡ x ∷ xs
  insert_by-first x [] h = refl
  insert_by-first x (y ∷ ys) h = rw (h.0)

  select-insert_by :
      (p : A → Bool) (x : A) (xs : List A)
      → Sorted before xs
      → select p (insert_by before x xs)
        ≡ (if p x then insert_by before x (select p xs) else select p xs)
  select-insert_by p x [] s = refl
  select-insert_by p x (y ∷ ys) s = elim (Bool-cases (before x y)) [
    | inl first ↦ elim (Bool-cases (p x)) [
      | inl hit ↦
          rw (first, hit)
            (sym (
              insert_by-first x (select p (y ∷ ys)) (
                All-select (λ z. before x z ≡ true) p (y ∷ ys)
                  (first, All-trans x y ys first s.0))))
      | inr miss ↦ rw (first, miss)
    ]
    | inr after ↦ ground (arith, select-insert_by p x ys s.1)
  ]

  pub select-order_by :
      (p : A → Bool) (xs : List A)
      → Comparable before xs
      → select p (order_by before xs) ≡ order_by before (select p xs)
  select-order_by p [] c = refl
  select-order_by p (x ∷ xs) c =
      select-insert_by p x (order_by before xs) (order_by-Sorted xs c.1)
      ∙ ground (arith, select-order_by p xs c.1)

  -- What comes after the last row of a page is what is left.
  pub select_after_page :
      (n d : ℕ) (xs : List A) {x : A}
      → Sorted before xs
      → last (take (suc n) (drop d xs)) ≡ some x
      → select (before x) xs ≡ drop (suc n) (drop d xs)
  select_after_page n zero [] s e = absurd (cc e)
  select_after_page zero zero (y ∷ ys) s e =
      subst (λ x. select (before x) (y ∷ ys) ≡ ys) {x = y} (cc e)
        (rw (irrefl y) (select_whole (before y) ys s.0))
  select_after_page (suc n) zero (y ∷ []) s e =
      subst (λ x. select (before x) (y ∷ []) ≡ []) {x = y} (cc e) (rw (irrefl y))
  select_after_page (suc n) zero (y ∷ z ∷ zs) {x} s e =
      let earlier = page_last_has (λ w. before y w ≡ true) (suc n) zero (z ∷ zs) s.0 e in
      rw (asym y x earlier) (select_after_page n zero (z ∷ zs) s.1 e)
  select_after_page n (suc d) [] s e = absurd (cc e)
  select_after_page n (suc d) (y ∷ ys) {x} s e =
      let earlier = page_last_has (λ w. before y w ≡ true) (suc n) d ys s.0 e in
      rw (asym y x earlier) (select_after_page n d ys s.1 e)

module _ {ℓ} {A : Type ℓ} where
  -- A page of a table that is not empty has a last row.
  pub page_has_last :
      (n : ℕ) (xs : List A) → 1 ≤ length xs → (x : A) × (last (take (suc n) xs) ≡ some x)
  page_has_last n [] h = absurd (omega arith)
  page_has_last zero (y ∷ ys) h = (y, refl)
  page_has_last (suc n) (y ∷ []) h = (y, refl)
  page_has_last (suc n) (y ∷ z ∷ zs) h = page_has_last n (z ∷ zs) (omega arith)
