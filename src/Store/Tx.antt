-- ===== src/Store/Tx.antt =====
-- A `with db() as conn:` block: statements run in order; an exception that leaves the block rolls
-- the database back, so a failed transaction has no state of its own. Each service error class is
-- the pair of its HTTP status and its detail.
use dark_noc.Base.{
  if◌then◌else◌, where_rows, first_row, any_row, count_rows, ℕ, suc, String, Bool, true, false,
  Option, none, some, List, [], ◌∷◌,
}
use dark_noc.Store.Table.{Row, add, change, discard}
use dark_noc.Store.Hub.{Hub, Relation}

-- `integrity` is sqlite3.IntegrityError; `crash` is any other exception that no handler expects.
pub data Error : Type 0 where
  http : ℕ → String → Error
  integrity : Error
  crash : Error

pub data Result {ℓ} (A : Type ℓ) : Type ℓ where
  ok : A → Result A
  err : Error → Result A

abbrev pub Tx : Type 0 → Type 0
Tx A = Hub → Result (A × Hub)

module _ {A : Type 0} where
  pub pure : A → Tx A
  pure a h = ok (a, h)

  pub throw : Error → Tx A
  throw e h = err e

  -- if not row: raise Error(status, detail)
  pub found : Option A → ℕ → String → Tx A
  unfolding pure throw
  found none status detail = throw (http status detail)
  found (some a) status detail = pure a

-- if test: raise Error(status, detail)
pub reject_if : Bool → ℕ → String → Tx (Unit {0})
unfolding pure throw
reject_if true status detail = throw (http status detail)
reject_if false status detail = pure tt

pub utc_ts : Tx ℕ
utc_ts h = ok (h.clock h.readings, record h { readings = suc h.readings })

module _ {C : Type 0} where
  -- cursor.lastrowid
  pub insert : Relation C → C → Tx ℕ
  insert r c h = let t = r.read h in ok (t.next_id, r.write (add c t) h)

  -- cursor.rowcount
  pub update : Relation C → (Row C → Bool) → (C → C) → Tx ℕ
  update r test f h = let t = r.read h in ok (count_rows test t.rows, r.write (change test f t) h)

  pub delete : Relation C → (Row C → Bool) → Tx (Unit {0})
  delete r test h = ok (tt, r.write (discard test (r.read h)) h)

  pub fetch_one : Relation C → (Row C → Bool) → Tx (Option (Row C))
  fetch_one r test h = ok (first_row test (r.read h).rows, h)

  pub fetch_all : Relation C → (Row C → Bool) → Tx (List (Row C))
  fetch_all r test h = ok (where_rows test (r.read h).rows, h)

  pub fetch_count : Relation C → (Row C → Bool) → Tx ℕ
  fetch_count r test h = ok (count_rows test (r.read h).rows, h)

  -- a UNIQUE constraint: refuse the statement where a row clashes
  pub refuse_clash : Relation C → (Row C → Bool) → Tx (Unit {0})
  refuse_clash r clash h = if any_row clash (r.read h).rows then err integrity else ok (tt, h)

module _ {A B : Type 0} where
  abbrev pub continue : Result (A × Hub) → (A → Tx B) → Result (B × Hub)
  continue (ok (a, h)) f = f a h
  continue (err e) f = err e

  infixl 10 ◌>>=◌ ◌>>◌
  -- Opening this opens the statements too.
  unfoldable pub ◌>>=◌ : Tx A → (A → Tx B) → Tx B
  unfolding pure throw found reject_if utc_ts insert update delete fetch_one fetch_all fetch_count
      refuse_clash
  ◌>>=◌ m f h = continue (m h) f

  abbrev pub ◌>>◌ : Tx A → Tx B → Tx B
  m >> n = m >>= λ _. n

-- except sqlite3.IntegrityError as exc: raise Error(status, detail) from exc
module _ {A : Type 0} where
  abbrev pub recover : ℕ → String → Result (A × Hub) → Result (A × Hub)
  recover status detail (err integrity) = err (http status detail)
  recover status detail r = r

  unfoldable pub on_integrity : ℕ → String → Tx A → Tx A
  on_integrity status detail m h = recover status detail (m h)

-- for x in xs: body(x)
module _ {A : Type 0} where
  unfoldable pub for_each : List A → (A → Tx (Unit {0})) → Tx (Unit {0})
  unfolding ◌>>=◌
  for_each [] body = pure tt
  for_each (x ∷ xs) body = body x >>= λ _. for_each xs body

-- The state that the next request sees: a failed transaction left the database as it was.
abbrev pub settle : {A : Type 0} → Hub → Result (A × Hub) → Hub
settle h (ok (a, h')) = h'
settle h (err e) = h

-- The HTTP status of the answer: FastAPI turns an exception that nothing handles into 500.
abbrev pub http_status : {A : Type 0} → Result A → ℕ
http_status (ok a) = 200
http_status (err (http status detail)) = status
http_status (err _) = 500
