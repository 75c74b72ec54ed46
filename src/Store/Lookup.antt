-- ===== src/Store/Lookup.antt =====
-- An UPDATE by id after a SELECT by the same id: ids are unique, so the row that is written is the
-- row that was read.
use mathlib.Core.Path.{subst}
use mathlib.Core.Option.{some-injective}
use dark_noc.Base.{
  ◌==◌, Bool-cases, first_row, update_rows, count_rows, All, ℕ, suc, ◌≤◌, ◌<◌, ◌≡◌, refl, sym, ap,
  inl, inr, Bool, true, false, ◌&&◌, some, List, [], ◌∷◌, arith,
}
use dark_noc.Store.Table.{Row, amend, change, Rising, Rising-update, find}
use dark_noc.Store.Hub.{Hub, Relation}
use dark_noc.Store.Tx.{◌>>=◌, update}
use dark_noc.Store.Valid.{Consistent}
use dark_noc.Store.Growth.{Extends-change, Grown-refl}
use dark_noc.Store.Keeps.{Holds, Governed}

module _ {C : Type 0} (P : C → Type 0) where
  All-rest :
      (lo n : ℕ) (f : C → C) (rows : List (Row C)) (hi : ℕ)
      → Rising lo rows hi
      → All (λ x. P x.cols) rows
      → n < lo
      → All (λ x. P x.cols) (update_rows (λ x. x.id == n) (amend f) rows)
  unfolding update_rows
  All-rest lo n f [] hi k a e = tt
  All-rest lo n f (x ∷ rows) hi k a e =
      let other : (x.id == n) ≡ false = ground (arith, k.0) in
      rw other (a.0, All-rest (suc x.id) n f rows hi k.1 a.1 (omega (arith, k.0)))

  All-change_at :
      (lo n : ℕ) (f : C → C) (rows : List (Row C)) (hi : ℕ) (r : Row C)
      → Rising lo rows hi
      → All (λ x. P x.cols) rows
      → find n rows ≡ some r
      → P (f r.cols)
      → All (λ x. P x.cols) (update_rows (λ x. x.id == n) (amend f) rows)
  unfolding update_rows first_row
  All-change_at lo n f [] hi r k a e p = tt
  All-change_at lo n f (x ∷ rows) hi r k a e p = elim (Bool-cases (x.id == n)) [
    | inl t ↦ rw t (
      subst (λ y. P (f y.cols)) (sym (some-injective _ _ (rw t at e))) p,
      All-rest (suc x.id) n f rows hi k.1 a.1 (ground arith),
    )
    | inr t ↦ rw t (a.0, All-change_at (suc x.id) n f rows hi r k.1 a.1 (rw t at e) p)
  ]

module _ {C : Type 0} {P : C → Type 0} {r : Relation C} (g : Governed r P) where
  pub Holds-update_at :
      (h : Hub) (n : ℕ) (f : C → C) (row : Row C)
      → Consistent h
      → find n (r.read h).rows ≡ some row
      → P (f row.cols)
      → Holds h (update r (λ x. x.id == n) f h)
  unfolding ◌>>=◌
  Holds-update_at h n f row c e p = (
    g.back h (change (λ x. x.id == n) f (r.read h))
        (record {
          rising = Rising-update 0 (λ x. x.id == n) f _ _ (g.look h c).rising;
          each = All-change_at P 0 n f _ _ row (g.look h c).rising (g.look h c).each e p;
        })
        c,
    g.grows h _ (Extends-change (λ x. x.id == n) f (r.read h)) (Grown-refl h),
  )

-- count_rows of a test that a found row passes is not 0.
pub count-ne_zero :
    {C : Type 0} (n : ℕ) (test : Row C → Bool) (rows : List (Row C)) (r : Row C)
    → find n rows ≡ some r
    → test r ≡ true
    → (count_rows (λ x. x.id == n && test x) rows == 0) ≡ false
unfolding first_row count_rows
count-ne_zero n test [] r e t = cc
count-ne_zero n test (x ∷ rows) r e t = ground (arith, count-ne_zero n test rows r)

module _ {C : Type 0} (n : ℕ) (test : Row C → Bool) where
  -- No row below the first id passes a test for it.
  count-below :
      ((x : Row C) → (x.id == n) ≡ false → test x ≡ false)
      → (lo : ℕ) (rows : List (Row C)) (hi : ℕ) → Rising lo rows hi
      → n < lo
      → count_rows test rows ≡ 0
  unfolding count_rows
  count-below only lo [] hi k b = refl
  count-below only lo (x ∷ rows) hi k b =
      let other : (x.id == n) ≡ false = ground (arith, k.0) in
      rw (only x other, count-below only (suc x.id) rows hi k.1 (omega (arith, b, k.0))) refl

  -- A statement on a found row that passes its test changes this row alone.
  pub count-one :
      ((x : Row C) → (x.id == n) ≡ false → test x ≡ false)
      → (lo : ℕ) (rows : List (Row C)) (hi : ℕ) (r : Row C) → Rising lo rows hi
      → find n rows ≡ some r
      → test r ≡ true
      → count_rows test rows ≡ 1
  unfolding first_row count_rows
  count-one only lo [] hi r k e t = absurd cc
  count-one only lo (x ∷ rows) hi r k e t = elim (Bool-cases (x.id == n)) [
    | inl p ↦
        let passes : test x ≡ true =
          subst (λ y. test y ≡ true) (sym (some-injective x r (rw p at e))) t in
        rw (passes, count-below only (suc x.id) rows hi k.1 (ground arith)) refl
    | inr p ↦ rw (only x p, count-one only (suc x.id) rows hi r k.1 (rw p at e) t) refl
  ]

find_at_least :
    {C : Type 0} (lo n : ℕ) (rows : List (Row C)) (hi : ℕ) (r : Row C)
    → Rising lo rows hi
    → find n rows ≡ some r
    → lo ≤ n
unfolding first_row
find_at_least lo n [] hi r k e = absurd cc
find_at_least lo n (x ∷ rows) hi r k e = elim (Bool-cases (x.id == n)) [
  | inl p ↦ ground (arith, k.0)
  | inr p ↦ omega (arith, k.0, find_at_least (suc x.id) n rows hi r k.1 (rw p at e))
]

-- No id that is found lies before the first row's.
find_from :
    {C : Type 0} (lo n : ℕ) (x : Row C) (rows : List (Row C)) (hi : ℕ) (r : Row C)
    → Rising lo (x ∷ rows) hi
    → find n (x ∷ rows) ≡ some r
    → x.id ≤ n
unfolding first_row
find_from lo n x rows hi r k e = elim (Bool-cases (x.id == n)) [
  | inl p ↦ ground arith
  | inr p ↦ omega (arith, find_at_least (suc x.id) n rows hi r k.1 (rw p at e))
]

-- The first row that passes a test has the lowest id of those that do.
pub first_row-least :
    {C : Type 0} (lo n : ℕ) (test : Row C → Bool) (rows : List (Row C)) (hi : ℕ) (r : Row C)
    → Rising lo rows hi
    → find n rows ≡ some r
    → test r ≡ true
    → (first : Row C) × ((first_row test rows ≡ some first) × (first.id ≤ n))
unfolding first_row
first_row-least lo n test [] hi r k e t = absurd cc
first_row-least lo n test (x ∷ rows) hi r k e t = elim (Bool-cases (test x)) [
  | inl p ↦ (x, (ground arith, omega (arith, k.0, find_from lo n x rows hi r k e)))
  | inr p ↦
      let different : (x.id == n) ≡ false = ground (arith, some-injective x r) in
      let later = first_row-least (suc x.id) n test rows hi r k.1 (rw different at e) t in
      (later.0, (ground (arith, later.1.0), later.1.1))
]

-- The row that a query returns is the one that its id names.
pub find-first_row :
    {C : Type 0} (lo : ℕ) (test : Row C → Bool) (rows : List (Row C)) (hi : ℕ) (r : Row C)
    → Rising lo rows hi
    → first_row test rows ≡ some r
    → find r.id rows ≡ some r
unfolding first_row
find-first_row lo test [] hi r k e = absurd cc
find-first_row lo test (x ∷ rows) hi r k e = elim (Bool-cases (test x)) [
  | inl p ↦
      subst (λ y. find y.id (x ∷ rows) ≡ some y) (some-injective x r (rw p at e)) (ground arith)
  | inr p ↦
      let later = find-first_row (suc x.id) test rows hi r k.1 (rw p at e) in
      let above = find_at_least (suc x.id) r.id rows hi r k.1 later in ground arith
]

-- A row that is found by its id and passes a test is what a query for both returns.
pub find-also :
    {C : Type 0} (n : ℕ) (test : Row C → Bool) (rows : List (Row C)) (r : Row C)
    → find n rows ≡ some r
    → test r ≡ true
    → first_row (λ x. x.id == n && test x) rows ≡ some r
unfolding first_row
find-also n test [] r e t = absurd cc
find-also n test (x ∷ rows) r e t = elim (Bool-cases (x.id == n)) [
  | inl p ↦
      subst (λ y. first_row (λ z. z.id == n && test z) (x ∷ rows) ≡ some y)
        (some-injective x r (rw p at e))
        (ground (arith, ap test (some-injective x r (rw p at e)), t))
  | inr p ↦ rw p (find-also n test rows r (rw p at e) t)
]
