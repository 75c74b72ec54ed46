-- ===== src/Store/Table.antt =====
-- A table with an AUTOINCREMENT primary key. Rows stand in the order of their ids, which is the
-- order in which SQLite returns them by rowid.
use dark_noc.Base.{
  ◌==◌, if◌then◌else◌, Bool-cases, where_rows, first_row, update_rows, All, All-append,
  All-where_rows, All-update_rows, ℕ, suc, ◌≤◌, ◌<◌, ◌≡◌, refl, ap, ◌∙◌, inl, inr, Bool, true, not,
  Option, none, some, List, [], ◌∷◌, ◌++◌, arith,
}

pub record Row {ℓ} (C : Type ℓ) : Type ℓ where
  pub id : ℕ
  pub cols : C

pub record Table {ℓ} (C : Type ℓ) : Type ℓ where
  pub rows : List (Row C)
  pub next_id : ℕ

module _ {ℓ} {C : Type ℓ} where
  -- INSERT: the new id is the next one, and is never used again.
  abbrev pub add : C → Table C → Table C
  add c t = record {
    rows = t.rows ++ record { id = t.next_id; cols = c } ∷ [];
    next_id = suc t.next_id;
  }

  -- UPDATE: a statement names columns, never the id.
  abbrev pub amend : (C → C) → Row C → Row C
  amend f r = record r { cols = f r.cols }

  abbrev pub change : (Row C → Bool) → (C → C) → Table C → Table C
  change test f t = record t { rows = update_rows test (amend f) t.rows }

  -- DELETE
  abbrev pub discard : (Row C → Bool) → Table C → Table C
  discard test t = record t { rows = where_rows (λ r. not (test r)) t.rows }

  -- ids rise from `lo` and stay below `hi`
  abbrev pub Rising : ℕ → List (Row C) → ℕ → Type 0
  Rising lo [] hi = lo ≤ hi
  Rising lo (r ∷ rs) hi = (lo ≤ r.id) × Rising (suc r.id) rs hi

  Rising-weaken :
      (lo lo' : ℕ) (rs : List (Row C)) (hi : ℕ) → lo' ≤ lo → Rising lo rs hi → Rising lo' rs hi
  Rising-weaken lo lo' [] hi h k = omega arith
  Rising-weaken lo lo' (r ∷ rs) hi h k = (omega arith, k.1)

  Rising-append :
      (lo : ℕ) (rs : List (Row C)) (hi : ℕ) (c : C)
      → Rising lo rs hi
      → Rising lo (rs ++ record { id = hi; cols = c } ∷ []) (suc hi)
  Rising-append lo [] hi c k = (k, omega arith)
  Rising-append lo (r ∷ rs) hi c k = (k.0, Rising-append (suc r.id) rs hi c k.1)

  pub Rising-update :
      (lo : ℕ) (test : Row C → Bool) (f : C → C) (rs : List (Row C)) (hi : ℕ)
      → Rising lo rs hi
      → Rising lo (update_rows test (amend f) rs) hi
  unfolding update_rows
  Rising-update lo test f [] hi k = k
  Rising-update lo test f (r ∷ rs) hi k = elim (Bool-cases (test r)) [
    | inl e ↦ rw e (k.0, Rising-update (suc r.id) test f rs hi k.1)
    | inr e ↦ rw e (k.0, Rising-update (suc r.id) test f rs hi k.1)
  ]

  Rising-where :
      (lo : ℕ) (test : Row C → Bool) (rs : List (Row C)) (hi : ℕ)
      → Rising lo rs hi
      → Rising lo (where_rows test rs) hi
  unfolding where_rows
  Rising-where lo test [] hi k = k
  Rising-where lo test (r ∷ rs) hi k = elim (Bool-cases (test r)) [
    | inl e ↦ rw e (k.0, Rising-where (suc r.id) test rs hi k.1)
    | inr e ↦ rw e (
        Rising-weaken (suc r.id) lo (where_rows test rs) hi (omega (arith, k.0))
          (Rising-where (suc r.id) test rs hi k.1))
  ]

  -- Well-formed: ids rise below the next one, and each row is `P`.
  pub record IsTable {κ} (P : C → Type κ) (t : Table C) : Type κ where
    pub rising : Rising 0 t.rows t.next_id
    pub each : All (λ r. P r.cols) t.rows

module _ {ℓ κ} {C : Type ℓ} (P : C → Type κ) (t : Table C) (ok : IsTable P t) where
  pub add-IsTable : (c : C) → P c → IsTable P (add c t)
  add-IsTable c pc = record {
    rising = Rising-append 0 t.rows t.next_id c ok.rising;
    each = All-append (λ r. P r.cols) t.rows _ ok.each (pc, tt);
  }

  pub change-IsTable :
      (test : Row C → Bool) (f : C → C)
      → ((r : Row C) → P r.cols → test r ≡ true → P (f r.cols))
      → IsTable P (change test f t)
  change-IsTable test f k = record {
    rising = Rising-update 0 test f t.rows t.next_id ok.rising;
    each = All-update_rows (λ r. P r.cols) test (amend f) t.rows k ok.each;
  }

  pub discard-IsTable : (test : Row C → Bool) → IsTable P (discard test t)
  discard-IsTable test = record {
    rising = Rising-where 0 (λ r. not (test r)) t.rows t.next_id ok.rising;
    each = All-where_rows (λ r. P r.cols) (λ r. not (test r)) t.rows ok.each;
  }

module _ {C : Type 0} where
  -- SELECT … WHERE id=?
  abbrev pub find : ℕ → List (Row C) → Option (Row C)
  find n rows = first_row (λ r. r.id == n) rows

  abbrev pub amend_if : (Row C → Bool) → (C → C) → Option (Row C) → Option (Row C)
  amend_if test f none = none
  amend_if test f (some r) = some (if test r then amend f r else r)

  -- What a row reads after an UPDATE.
  pub find-update :
      (n : ℕ) (test : Row C → Bool) (f : C → C) (rows : List (Row C))
      → find n (update_rows test (amend f) rows) ≡ amend_if test f (find n rows)
  unfolding update_rows first_row
  find-update n test f [] = refl
  find-update n test f (r ∷ rows) = ground (arith, find-update n test f rows)

  -- What a row reads after an INSERT: an old row is as it was.
  pub find-append :
      (n : ℕ) (rows new : List (Row C)) (r : Row C)
      → find n rows ≡ some r
      → find n (rows ++ new) ≡ some r
  unfolding first_row
  find-append n [] new r e = cc
  find-append n (x ∷ rows) new r e = ground (arith, find-append n rows new r)

  Rising-bound : (lo : ℕ) (rows : List (Row C)) (hi : ℕ) → Rising lo rows hi → lo ≤ hi
  Rising-bound lo [] hi k = k
  Rising-bound lo (r ∷ rows) hi k = omega (arith, Rising-bound (suc r.id) rows hi k.1, k.0)

  -- Every id that is found lies below the next one, so an inserted row is a new one.
  pub find_lt_next :
      (lo n : ℕ) (rows : List (Row C)) (hi : ℕ) (r : Row C)
      → Rising lo rows hi
      → find n rows ≡ some r
      → n < hi
  unfolding first_row
  find_lt_next lo n [] hi r k e = cc
  find_lt_next lo n (x ∷ rows) hi r k e =
      ground (arith, Rising-bound (suc x.id) rows hi, find_lt_next (suc x.id) n rows hi r, k.0, k.1)

  pub find_below :
      (lo n : ℕ) (rows : List (Row C)) (hi : ℕ) → Rising lo rows hi → n < lo → find n rows ≡ none
  unfolding first_row
  find_below lo n [] hi k e = refl
  find_below lo n (x ∷ rows) hi k e = ground (arith, find_below (suc x.id) n rows hi, k.0, k.1)

  abbrev pub keep_if : (Row C → Bool) → Option (Row C) → Option (Row C)
  keep_if test none = none
  keep_if test (some r) = if test r then some r else none

  -- What a row reads after a DELETE of the rows that fail `test`: ids are unique.
  pub find-where :
      (lo n : ℕ) (test : Row C → Bool) (rows : List (Row C)) (hi : ℕ)
      → Rising lo rows hi
      → find n (where_rows test rows) ≡ keep_if test (find n rows)
  unfolding first_row where_rows
  find-where lo n test [] hi k = refl
  find-where lo n test (x ∷ rows) hi k =
      ground
        (arith, find-where (suc x.id) n test rows hi k.1, find_below (suc x.id) n rows hi k.1, k.0)

  -- The row that an INSERT adds is found under the id that it returns.
  pub find-add :
      (lo : ℕ) (rows : List (Row C)) (hi : ℕ) (c : C)
      → Rising lo rows hi
      → find hi (rows ++ record { id = hi; cols = c } ∷ []) ≡ some (record { id = hi; cols = c })
  unfolding first_row
  find-add lo [] hi c k = ground arith
  find-add lo (x ∷ rows) hi c k =
      ground (arith, find-add (suc x.id) rows hi c k.1, Rising-bound (suc x.id) rows hi k.1, k.0)

  pub find-id : (n : ℕ) (rows : List (Row C)) (r : Row C) → find n rows ≡ some r → r.id ≡ n
  unfolding first_row
  find-id n [] r e = cc
  find-id n (x ∷ rows) r e = ground (arith, find-id n rows r)

  pub find_self :
      (n : ℕ) (rows : List (Row C)) (r : Row C) → find n rows ≡ some r → find r.id rows ≡ some r
  find_self n rows r e = ap (λ m. find m rows) (find-id n rows r e) ∙ e
