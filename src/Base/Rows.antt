-- ===== src/Base/Rows.antt =====
-- The clauses of a query over a list of rows: WHERE, LIMIT 1, UPDATE, DELETE, COUNT, ORDER BY.
use Prim.Native.Nat.{ℕ, zero, suc, ◌+◌, ◌≤◌}
use mathlib.Core.Path.{◌≡◌, refl, subst}
use mathlib.Core.Logic.{inl, inr}
use mathlib.Core.Bool.{Bool, true, false, not, ◌&&◌, ◌||◌}
use mathlib.Core.Option.{Option, none, some, some-injective}
use mathlib.Core.List.{List, [], ◌∷◌, ◌++◌}
use native.Mathlib.Omega.{arith}
use dark_noc.Base.Tests.{if◌then◌else◌, Bool-cases, leb, ◌==◌, or_left, or_right}

module _ {ℓ} {A : Type ℓ} where
  abbrev pub length : List A → ℕ
  length [] = 0
  length (x ∷ xs) = suc (length xs)

  abbrev pub take : ℕ → List A → List A
  take zero xs = []
  take (suc n) [] = []
  take (suc n) (x ∷ xs) = x ∷ take n xs

  abbrev pub drop : ℕ → List A → List A
  drop zero xs = xs
  drop (suc n) [] = []
  drop (suc n) (x ∷ xs) = drop n xs

  unfoldable pub where_rows : (A → Bool) → List A → List A
  where_rows test [] = []
  where_rows test (x ∷ xs) = let rest = where_rows test xs in if test x then x ∷ rest else rest

  unfoldable pub first_row : (A → Bool) → List A → Option A
  first_row test [] = none
  first_row test (x ∷ xs) = let rest = first_row test xs in if test x then some x else rest

  unfoldable pub any_row : (A → Bool) → List A → Bool
  any_row test [] = false
  any_row test (x ∷ xs) = test x || any_row test xs

  unfoldable pub update_rows : (A → Bool) → (A → A) → List A → List A
  update_rows test f [] = []
  update_rows test f (x ∷ xs) = (if test x then f x else x) ∷ update_rows test f xs

  unfoldable pub count_rows : (A → Bool) → List A → ℕ
  count_rows test [] = 0
  count_rows test (x ∷ xs) = (if test x then 1 else 0) + count_rows test xs

  -- A stable insertion by a numeric key, and ORDER BY that key.
  unfoldable pub insert_by : (A → ℕ) → A → List A → List A
  insert_by key x [] = x ∷ []
  insert_by key x (y ∷ ys) = if leb (key x) (key y) then x ∷ y ∷ ys else y ∷ insert_by key x ys

  unfoldable pub order_by : (A → ℕ) → List A → List A
  order_by key [] = []
  order_by key (x ∷ xs) = insert_by key x (order_by key xs)

  abbrev pub All {κ} : (A → Type κ) → List A → Type κ
  All P [] = Unit
  All P (x ∷ xs) = P x × All P xs

module _ {ℓ κ} {A : Type ℓ} (P : A → Type κ) where
  pub All-append : (xs ys : List A) → All P xs → All P ys → All P (xs ++ ys)
  All-append [] ys hx hy = hy
  All-append (x ∷ xs) ys hx hy = (hx.0, All-append xs ys hx.1 hy)

  pub All-where_rows : (test : A → Bool) (xs : List A) → All P xs → All P (where_rows test xs)
  unfolding where_rows
  All-where_rows test [] h = tt
  All-where_rows test (x ∷ xs) h = elim (Bool-cases (test x)) [
    | inl e ↦ rw e (h.0, All-where_rows test xs h.1)
    | inr e ↦ rw e (All-where_rows test xs h.1)
  ]

  pub All-update_rows :
      (test : A → Bool) (f : A → A) (xs : List A)
      → ((x : A) → P x → test x ≡ true → P (f x))
      → All P xs
      → All P (update_rows test f xs)
  unfolding update_rows
  All-update_rows test f [] k h = tt
  All-update_rows test f (x ∷ xs) k h = elim (Bool-cases (test x)) [
    | inl e ↦ rw e (k x h.0 e, All-update_rows test f xs k h.1)
    | inr e ↦ rw e (h.0, All-update_rows test f xs k h.1)
  ]

  pub All-first_row :
      (test : A → Bool) (xs : List A) (x : A) → All P xs → first_row test xs ≡ some x → P x
  unfolding first_row
  All-first_row test [] x h e = cc
  All-first_row test (y ∷ ys) x h e = elim (Bool-cases (test y)) [
    | inl t ↦ subst P (some-injective _ _ (rw t at e)) h.0
    | inr t ↦ All-first_row test ys x h.1 (rw t at e)
  ]

module _ {ℓ} {A : Type ℓ} where
  -- the row that a query returns passes its test
  pub first_row-test :
      (test : A → Bool) (xs : List A) (x : A) → first_row test xs ≡ some x → test x ≡ true
  unfolding first_row
  first_row-test test [] x e = cc
  first_row-test test (y ∷ ys) x e = ground (arith, first_row-test test ys x)

  abbrev pub change_if : (A → Bool) → (A → A) → Option A → Option A
  change_if test f none = none
  change_if test f (some x) = some (if test x then f x else x)

  -- A query after an UPDATE that does not change what the query tests.
  pub first_row-update_rows :
      (query test : A → Bool) (f : A → A) (xs : List A)
      → ((x : A) → query (f x) ≡ query x)
      → first_row query (update_rows test f xs) ≡ change_if test f (first_row query xs)
  unfolding first_row update_rows
  first_row-update_rows query test f [] k = refl
  first_row-update_rows query test f (x ∷ xs) k =
      ground (arith, k x, first_row-update_rows query test f xs k)

  -- A query after an INSERT where no old row is returned.
  pub first_row-append :
      (query : A → Bool) (xs ys : List A)
      → first_row query xs ≡ none
      → first_row query (xs ++ ys) ≡ first_row query ys
  unfolding first_row
  first_row-append query [] ys e = refl
  first_row-append query (x ∷ xs) ys e = ground (arith, first_row-append query xs ys)

  -- No row passes one test, so the row that another test finds fails it.
  pub any_row-first_row :
      (test query : A → Bool) (xs : List A) (x : A)
      → any_row test xs ≡ false
      → first_row query xs ≡ some x
      → test x ≡ false
  unfolding any_row first_row
  any_row-first_row test query [] x k e = absurd cc
  any_row-first_row test query (y ∷ ys) x k e =
      let none_here = or_left (test y) (any_row test ys) k in
      let none_later = or_right (test y) (any_row test ys) k in
      elim (Bool-cases (query y)) [
        | inl q ↦ subst (λ z. test z ≡ false) (some-injective _ _ (rw q at e)) none_here
        | inr q ↦ any_row-first_row test query ys x none_later (rw q at e)
      ]

  -- A count is 0 exactly if no row passes.
  pub count-any_row :
      (test : A → Bool) (xs : List A) → (count_rows test xs == 0) ≡ not (any_row test xs)
  unfolding count_rows any_row
  count-any_row test [] = refl
  count-any_row test (x ∷ xs) = ground (arith, count-any_row test xs)

  count-le :
      (wide narrow : A → Bool) (xs : List A)
      → count_rows (λ x. wide x && narrow x) xs ≤ count_rows wide xs
  unfolding count_rows
  count-le wide narrow [] = omega arith
  count-le wide narrow (x ∷ xs) = ground (arith, count-le wide narrow xs)

  -- Two counts agree exactly if no row passes the wide test alone.
  pub count-every :
      (wide narrow : A → Bool) (xs : List A)
      → (count_rows (λ x. wide x && narrow x) xs == count_rows wide xs)
        ≡ not (any_row (λ x. wide x && not (narrow x)) xs)
  unfolding count_rows any_row
  count-every wide narrow [] = refl
  count-every wide narrow (x ∷ xs) =
      ground (arith, count-le wide narrow xs, count-every wide narrow xs)
