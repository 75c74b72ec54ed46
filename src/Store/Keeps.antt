-- ===== src/Store/Keeps.antt =====
-- Transactions that keep the database consistent: a rule for each statement and for each way to
-- put statements together.
use dark_noc.Base.{
  if◌then◌else◌, any_row, ℕ, suc, String, ◌≡◌, Bool, true, false, Option, none, some, List, [], ◌∷◌,
}
use dark_noc.Store.Table.{Row, Table, IsTable, add-IsTable, change-IsTable, discard-IsTable}
use dark_noc.Store.Hub.{Hub, Relation}
use dark_noc.Store.Tx.{
  ◌>>=◌, Error, integrity, Result, ok, err, Tx, pure, throw, found, reject_if, utc_ts, insert,
  update, delete, fetch_one, fetch_all, fetch_count, refuse_clash, continue, recover, on_integrity,
  for_each, settle,
}
use dark_noc.Store.Valid.{Anything, Consistent}
use dark_noc.Store.Growth.{
  Extends, Extends-add, Extends-change, Extends-discard, Grown, Grown-refl, Grown-trans,
}

abbrev pub Holds : {A : Type 0} → Hub → Result (A × Hub) → Type 0
Holds h (ok (a, h')) = Consistent h' × Grown h h'
Holds h (err e) = Unit

-- If the transaction commits, the state that it leaves is consistent, and no id is handed out twice.
pub record Keeps {A : Type 0} (m : Tx A) : Type 0 where
  pub at : (h : Hub) → Consistent h → Holds h (m h)

-- Of the table that `r` names, consistency says that its rows satisfy `P`.
pub record Governed {C : Type 0} (r : Relation C) (P : C → Type 0) : Type 0 where
  pub look : (h : Hub) → Consistent h → IsTable P (r.read h)
  pub back : (h : Hub) (t : Table C) → IsTable P t → Consistent h → Consistent (r.write t h)
  pub grows : (h : Hub) (t : Table C) → Extends (r.read h) t → Grown h h → Grown h (r.write t h)

module _ {A : Type 0} where
  pub Keeps-pure : (a : A) → Keeps (pure a)
  unfolding ◌>>=◌
  Keeps-pure a = record { at = λ h c. (c, Grown-refl h) }

  pub Keeps-throw : (e : Error) → Keeps (throw {A = A} e)
  unfolding ◌>>=◌
  Keeps-throw e = record { at = λ h c. tt }

  pub Keeps-found : (o : Option A) (s : ℕ) (d : String) → Keeps (found o s d)
  unfolding ◌>>=◌
  Keeps-found none s d = record { at = λ h c. tt }
  Keeps-found (some a) s d = record { at = λ h c. (c, Grown-refl h) }

  pub Keeps-if : (b : Bool) (m n : Tx A) → Keeps m → Keeps n → Keeps (if b then m else n)
  Keeps-if true m n km kn = km
  Keeps-if false m n km kn = kn

pub Keeps-reject_if : (b : Bool) (s : ℕ) (d : String) → Keeps (reject_if b s d)
unfolding ◌>>=◌
Keeps-reject_if true s d = record { at = λ h c. tt }
Keeps-reject_if false s d = record { at = λ h c. (c, Grown-refl h) }

-- A look at the clock changes no table.
Grown-reading : (h : Hub) → Grown h h → Grown h (record h { readings = suc h.readings })
Grown-reading h same = assumption

pub Keeps-utc_ts : Keeps utc_ts
unfolding ◌>>=◌
Keeps-utc_ts = record { at = λ h c. (assumption, Grown-reading h (Grown-refl h)) }

clashes :
    (b : Bool) (h : Hub) → Consistent h → Holds h (if b then err integrity else ok (tt {0}, h))
clashes true h c = tt
clashes false h c = (c, Grown-refl h)

module _ {C : Type 0} (r : Relation C) where
  pub Keeps-fetch_one : (test : Row C → Bool) → Keeps (fetch_one r test)
  unfolding ◌>>=◌
  Keeps-fetch_one test = record { at = λ h c. (c, Grown-refl h) }

  pub Keeps-fetch_all : (test : Row C → Bool) → Keeps (fetch_all r test)
  unfolding ◌>>=◌
  Keeps-fetch_all test = record { at = λ h c. (c, Grown-refl h) }

  pub Keeps-fetch_count : (test : Row C → Bool) → Keeps (fetch_count r test)
  unfolding ◌>>=◌
  Keeps-fetch_count test = record { at = λ h c. (c, Grown-refl h) }

  pub Keeps-refuse_clash : (clash : Row C → Bool) → Keeps (refuse_clash r clash)
  unfolding ◌>>=◌
  Keeps-refuse_clash clash = record { at = λ h c. clashes (any_row clash (r.read h).rows) h c }

module _ {C : Type 0} {P : C → Type 0} {r : Relation C} (g : Governed r P) where
  pub Keeps-insert : (c : C) → P c → Keeps (insert r c)
  unfolding ◌>>=◌
  Keeps-insert c pc = record {
    at = λ h k. (
      g.back h _ (add-IsTable P (r.read h) (g.look h k) c pc) k,
      g.grows h _ (Extends-add c (r.read h)) (Grown-refl h),
    );
  }

  pub Keeps-update :
      (test : Row C → Bool) (f : C → C)
      → ((row : Row C) → P row.cols → test row ≡ true → P (f row.cols))
      → Keeps (update r test f)
  unfolding ◌>>=◌
  Keeps-update test f step = record {
    at = λ h k. (
      g.back h _ (change-IsTable P (r.read h) (g.look h k) test f step) k,
      g.grows h _ (Extends-change test f (r.read h)) (Grown-refl h),
    );
  }

  pub Keeps-delete : (test : Row C → Bool) → Keeps (delete r test)
  unfolding ◌>>=◌
  Keeps-delete test = record {
    at = λ h k. (
      g.back h _ (discard-IsTable P (r.read h) (g.look h k) test) k,
      g.grows h _ (Extends-discard test (r.read h)) (Grown-refl h),
    );
  }

module _ {C : Type 0} {r : Relation C} (g : Governed r Anything) where
  pub Keeps-insert_any : (c : C) → Keeps (insert r c)
  Keeps-insert_any c = Keeps-insert g c tt

  pub Keeps-update_any : (test : Row C → Bool) (f : C → C) → Keeps (update r test f)
  Keeps-update_any test f = Keeps-update g test f (λ row p e. tt)

module _ {B : Type 0} where
  Holds-from : (h h' : Hub) (x : Result (B × Hub)) → Grown h h' → Holds h' x → Holds h x
  Holds-from h h' (ok (b, h'')) g c = (c.0, Grown-trans h h' h'' g c.1)
  Holds-from h h' (err e) g c = tt

module _ {A B : Type 0} where
  pub Holds-continue :
      (h : Hub) (x : Result (A × Hub)) (f : A → Tx B)
      → Holds h x
      → ((a : A) → Keeps (f a))
      → Holds h (continue x f)
  Holds-continue h (ok (a, h')) f c kf = Holds-from h h' (f a h') c.1 ((kf a).at h' c.0)
  Holds-continue h (err e) f c kf = tt

  pub Keeps-bind : (m : Tx A) (f : A → Tx B) → Keeps m → ((a : A) → Keeps (f a)) → Keeps (m >>= f)
  unfolding ◌>>=◌
  Keeps-bind m f km kf = record { at = λ h c. Holds-continue h (m h) f (km.at h c) kf }

module _ {A : Type 0} where
  Holds-recover :
      (h : Hub) (s : ℕ) (d : String) (x : Result (A × Hub)) → Holds h x → Holds h (recover s d x)
  Holds-recover h s d (ok (a, h')) c = c
  Holds-recover h s d (err integrity) c = tt
  Holds-recover h s d (err _) c = tt

  pub Keeps-on_integrity : (s : ℕ) (d : String) (m : Tx A) → Keeps m → Keeps (on_integrity s d m)
  unfolding on_integrity
  Keeps-on_integrity s d m km = record { at = λ h c. Holds-recover h s d (m h) (km.at h c) }

  pub Keeps-for_each :
      (xs : List A) (body : A → Tx (Unit {0}))
      → ((a : A) → Keeps (body a))
      → Keeps (for_each xs body)
  unfolding for_each
  Keeps-for_each [] body k = Keeps-pure tt
  Keeps-for_each (x ∷ xs) body k =
      Keeps-bind (body x) (λ _. for_each xs body) (k x) (λ _. Keeps-for_each xs body k)

-- A request leaves a consistent database and hands no id out twice, whether it commits or rolls
-- back.
pub Keeps-settle :
    {A : Type 0} (m : Tx A) (h : Hub)
    → Keeps m
    → Consistent h
    → Consistent (settle h (m h)) × Grown h (settle h (m h))
Keeps-settle {A = A} m h k c = go (m h) (k.at h c)
  where
    go : (x : Result (A × Hub)) → Holds h x → Consistent (settle h x) × Grown h (settle h x)
    go (ok (a, h')) kept = kept
    go (err e) _ = (c, Grown-refl h)
