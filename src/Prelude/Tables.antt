-- ===== src/Prelude/Tables.antt =====
-- A table is the list of its rows, newest first. What a SELECT, an UPDATE or an aggregate does
-- with one, for any row type and any condition.
use Prim.Native.Nat.{ℕ, zero, suc, ◌+◌, ◌≤◌}
use mathlib.Core.Bool.{Bool, true, false}
use mathlib.Core.Option.{Option, none, some}
use mathlib.Core.List.{List, [], ◌∷◌}
use mathlib.Core.Path.{◌≡◌, refl, sym, ap, ◌∙◌}
use native.Mathlib.Omega.{arith}
use simplebank.Prelude.Tests.{if◌then◌else◌}

module _ {ℓ} {A : Type ℓ} where
  abbrev pub length : List A → ℕ
  length [] = 0
  length (x ∷ xs) = suc (length xs)

  abbrev pub take : ℕ → List A → List A
  take zero xs = []
  take (suc n) [] = []
  take (suc n) (x ∷ xs) = x ∷ take n xs

  abbrev pub drop : ℕ → List A → List A
  drop zero xs = xs
  drop (suc n) [] = []
  drop (suc n) (x ∷ xs) = drop n xs

  -- SELECT … WHERE p LIMIT 1
  abbrev pub find? : (A → Bool) → List A → Option A
  find? p [] = none
  find? p (x ∷ xs) = if p x then some x else find? p xs

  -- EXISTS (SELECT … WHERE p)
  abbrev pub exists : (A → Bool) → List A → Bool
  exists p [] = false
  exists p (x ∷ xs) = if p x then true else exists p xs

  -- SELECT … WHERE p
  abbrev pub select : (A → Bool) → List A → List A
  select p [] = []
  select p (x ∷ xs) = if p x then x ∷ select p xs else select p xs

  -- UPDATE … SET f WHERE p
  abbrev pub update_where : (A → Bool) → (A → A) → List A → List A
  update_where p f [] = []
  update_where p f (x ∷ xs) = (if p x then f x else x) ∷ update_where p f xs

  abbrev pub All {κ} : (A → Type κ) → List A → Type κ
  All P [] = Unit
  All P (x ∷ xs) = P x × All P xs

  -- ORDER BY, by a test of what comes first: an insertion into a sorted table, and the sort.
  abbrev pub insert_by : (A → A → Bool) → A → List A → List A
  insert_by before x [] = x ∷ []
  insert_by before x (y ∷ ys) = if before x y then x ∷ y ∷ ys else y ∷ insert_by before x ys

  abbrev pub order_by : (A → A → Bool) → List A → List A
  order_by before [] = []
  order_by before (x ∷ xs) = insert_by before x (order_by before xs)

  pub exists_of_find? :
      (p : A → Bool) (xs : List A) (x : A) → find? p xs ≡ some x → exists p xs ≡ true
  exists_of_find? p [] x h = cc
  exists_of_find? p (y ∷ ys) x h = ground (arith, exists_of_find? p ys x)

  pub find?-none_of_exists : (p : A → Bool) (xs : List A) → exists p xs ≡ false → find? p xs ≡ none
  find?-none_of_exists p [] h = refl
  find?-none_of_exists p (y ∷ ys) h = ground (arith, find?-none_of_exists p ys)

  pub exists_of_find?-none : (p : A → Bool) (xs : List A) → find? p xs ≡ none → exists p xs ≡ false
  exists_of_find?-none p [] h = refl
  exists_of_find?-none p (y ∷ ys) h = ground (arith, exists_of_find?-none p ys)

  pub find?_holds : (p : A → Bool) (xs : List A) (x : A) → find? p xs ≡ some x → p x ≡ true
  find?_holds p [] x h = cc
  find?_holds p (y ∷ ys) x h = ground (arith, find?_holds p ys x)

  -- An UPDATE that keeps the condition of its rows, seen by a SELECT under the same condition.
  pub find?-update_where :
      (p : A → Bool) (f : A → A)
      → ((x : A) → p (f x) ≡ p x)
      → (xs : List A) (x : A) → find? p xs ≡ some x
      → find? p (update_where p f xs) ≡ some (f x)
  find?-update_where p f keep [] x h = cc
  find?-update_where p f keep (y ∷ ys) x h =
      ground (arith, keep y, find?-update_where p f keep ys x)

  -- The same, seen under another condition that its rows do not meet.
  pub find?-update_where_other :
      (p q : A → Bool) (f : A → A)
      → ((x : A) → p x ≡ true → (q x ≡ false) × (q (f x) ≡ false))
      → (xs : List A) → find? q (update_where p f xs) ≡ find? q xs
  find?-update_where_other p q f apart [] = refl
  find?-update_where_other p q f apart (y ∷ ys) =
      ground (arith, apart y, find?-update_where_other p q f apart ys)

  -- No row is left that meets a condition, when the UPDATE takes it from all that did.
  pub find?-update_where_gone :
      (p q : A → Bool) (f : A → A)
      → ((x : A) → p x ≡ true → q (f x) ≡ false)
      → ((x : A) → p x ≡ false → q x ≡ false)
      → (xs : List A) → find? q (update_where p f xs) ≡ none
  find?-update_where_gone p q f hit miss [] = refl
  find?-update_where_gone p q f hit miss (y ∷ ys) =
      ground (arith, hit y, miss y, find?-update_where_gone p q f hit miss ys)

  pub select-update_where_gone :
      (p : A → Bool) (f : A → A)
      → ((x : A) → p x ≡ true → p (f x) ≡ false)
      → (xs : List A) → select p (update_where p f xs) ≡ []
  select-update_where_gone p f hit [] = refl
  select-update_where_gone p f hit (y ∷ ys) =
      ground (arith, hit y, select-update_where_gone p f hit ys)

  pub length-take : (n : ℕ) (xs : List A) → n ≤ length xs → length (take n xs) ≡ n
  length-take zero xs h = refl
  length-take (suc n) [] h = absurd (omega arith)
  length-take (suc n) (x ∷ xs) h = ap suc (length-take n xs (omega arith))

  pub take_short : (n : ℕ) (xs : List A) → length xs ≤ n → take n xs ≡ xs
  take_short zero [] h = refl
  take_short zero (x ∷ xs) h = absurd (omega arith)
  take_short (suc n) [] h = refl
  take_short (suc n) (x ∷ xs) h = ap (λ ys. x ∷ ys) (take_short n xs (omega arith))

  pub take-take-suc : (n : ℕ) (xs : List A) → take n (take (suc n) xs) ≡ take n xs
  take-take-suc zero xs = refl
  take-take-suc (suc n) [] = refl
  take-take-suc (suc n) (x ∷ xs) = ap (λ ys. x ∷ ys) (take-take-suc n xs)

  pub drop_beyond : (n : ℕ) (xs : List A) → length xs ≤ n → drop n xs ≡ []
  drop_beyond zero [] h = refl
  drop_beyond zero (x ∷ xs) h = absurd (omega arith)
  drop_beyond (suc n) [] h = refl
  drop_beyond (suc n) (x ∷ xs) h = drop_beyond n xs (omega arith)

  pub take_none : (n : ℕ) → ◌≡◌ {A = List A} (take n []) []
  take_none zero = refl
  take_none (suc n) = refl

  -- An UPDATE that keeps the condition of a SELECT.
  pub find?-update_where_kept :
      (p q : A → Bool) (f : A → A)
      → ((x : A) → q (f x) ≡ q x)
      → (xs : List A) (x : A) → find? q xs ≡ some x
      → find? q (update_where p f xs) ≡ some (if p x then f x else x)
  find?-update_where_kept p q f keep [] x h = cc
  find?-update_where_kept p q f keep (y ∷ ys) x h =
      ground (arith, keep y, find?-update_where_kept p q f keep ys x)

  drop_none : (n : ℕ) → ◌≡◌ {A = List A} (drop n []) []
  drop_none zero = refl
  drop_none (suc n) = refl

  pub drop-drop : (n m : ℕ) (xs : List A) → drop m (drop n xs) ≡ drop (n + m) xs
  drop-drop zero m xs = ap (λ k. drop k xs) (omega arith)
  drop-drop (suc n) m [] = drop_none m ∙ sym (drop_none (suc n + m))
  drop-drop (suc n) m (x ∷ xs) =
      drop-drop n m xs ∙ ap (λ k. drop k (x ∷ xs)) {x = suc (n + m)} (omega arith)

  pub length-drop : (n : ℕ) (xs : List A) → n ≤ length xs → length (drop n xs) + n ≡ length xs
  length-drop zero xs h = omega arith
  length-drop (suc n) [] h = absurd (omega arith)
  length-drop (suc n) (x ∷ xs) h = omega (arith, length-drop n xs (omega arith))
