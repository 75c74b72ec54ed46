-- ===== src/Lease/Exclusion.antt =====
-- At most one Hub process controls a lease at a time.
use dark_noc.Base.{
  ltb, leb, if◌then◌else◌, Bool-cases, Option-cases, first_row, first_row-test,
  first_row-update_rows, first_row-append, ℕ, zero, suc, ◌+◌, ◌≤◌, ◌<◌, String, ◌≡◌, refl, ap, ◌∙◌,
  inl, inr, Bool, true, false, ◌&&◌, ◌||◌, Option, none, some, List, [], ◌∷◌, arith, str_eq, eq_iff,
}
use dark_noc.Store.Schema.{Lease}
use dark_noc.Store.Table.{Row, amend}
use dark_noc.Store.Hub.{Hub}
use dark_noc.Store.Tx.{Result, ok, err, ◌>>=◌, settle}
use dark_noc.Incident.{time_or_now}
use dark_noc.Lease.{upsert_lease, acquire_hub_lease}

abbrev pub lease_of : Option (Row Lease) → Option (String × ℕ)
lease_of none = none
lease_of (some l) = some (l.cols.holder, l.cols.expires_at)

-- Who holds the lease, and until when.
abbrev pub view : String → Hub → Option (String × ℕ)
view name h = lease_of (first_row (λ l. str_eq l.cols.name name) h.lease_table.rows)

-- What a lease promises: it is granted if it is free, the asker's own, or expired.
abbrev pub grant : Option (String × ℕ) → String → ℕ → ℕ → Bool × Option (String × ℕ)
grant none asker now term = (true, some (asker, now + term))
grant (some (holder, until)) asker now term =
    if str_eq holder asker || ltb until now
    then (true, some (asker, now + term))
    else (false, some (holder, until))

abbrev pub answer : Result (Bool × Hub) → Bool
answer (ok (b, h)) = b
answer (err e) = false

not_mine : (mine late reaches : Bool) → (mine || late) ≡ false → (mine && reaches) ≡ false
not_mine true late reaches k = cc
not_mine false late reaches k = refl

module _ (h : Hub) (term : ℕ) (asker name : String) where
  acquire_lem :
      (now : ℕ)
      → 0 < now
      → (answer (acquire_hub_lease term asker name (some now) h)
          ≡ (grant (view name h) asker now term).0)
        × (view name (settle h (acquire_hub_lease term asker name (some now) h))
            ≡ (grant (view name h) asker now term).1)
  unfolding acquire_hub_lease upsert_lease time_or_now ◌>>=◌ first_row
  acquire_lem zero p = absurd (omega arith)
  acquire_lem (suc t) p =
      let query : Row Lease → Bool = λ l. str_eq l.cols.name name in
      let mine : str_eq name name ≡ true = (eq_iff name name).1 refl in
      let me : str_eq asker asker ≡ true = (eq_iff asker asker).1 refl in
      let reach : leb (suc t + term) (suc t + term) ≡ true = ground arith in
      let fresh : Row Lease = record {
        id = h.lease_table.next_id;
        cols = record {
          name = name;
          holder = asker;
          expires_at = suc t + term;
          updated_at = suc t;
        };
      } in
      let open_to : Row Lease → Bool = λ l.
        str_eq l.cols.name name && (str_eq l.cols.holder asker || ltb l.cols.expires_at (suc t)) in
      let taken : Lease → Lease =
        λ l. record l { holder = asker; expires_at = suc t + term; updated_at = suc t } in
      elim (Option-cases (first_row query h.lease_table.rows)) [
        | inl e ↦
            let a = first_row-append query h.lease_table.rows (fresh ∷ []) e in
            rw (e, a, mine, me, reach) (refl, refl)
        | inr (l, e) ↦
            let u =
              first_row-update_rows query open_to (amend taken) h.lease_table.rows (λ x. refl) in
            let named = first_row-test query h.lease_table.rows l e in
            rw (e, u, e, named)
              (elim (Bool-cases (str_eq l.cols.holder asker || ltb l.cols.expires_at (suc t))) [
                | inl k ↦ rw (k, me, reach) (refl, refl)
                | inr k ↦ rw (k, not_mine (str_eq l.cols.holder asker) _ _ k) (refl, refl)
              ])
      ]

module _ (h : Hub) (term : ℕ) (asker name : String) (now : ℕ) where
  -- The lease request implements the abstract lease at every positive time: it answers yes exactly
  -- if the lease is free, held by the asker itself, or expired, and then the asker holds it for
  -- the whole term; if not, the holder and the expiry stay.
  pub acquire-grant :
      0 < now
      → (
        answer (acquire_hub_lease term asker name (some now) h),
        view name (settle h (acquire_hub_lease term asker name (some now) h)),
      )
        ≡ grant (view name h) asker now term
  acquire-grant p = let both = acquire_lem h term asker name now p in λ i. (both.0 i, both.1 i)

-- A request: who asks, when, and for how long.
pub record Request : Type 0 where
  pub asker : String
  pub now : ℕ
  pub term : ℕ

-- The state after a series of requests, and whether one of a rival was granted.
abbrev pub serve : String → List Request → Hub → Hub
serve name [] h = h
serve name (r ∷ rs) h =
    serve name rs (settle h (acquire_hub_lease r.term r.asker name (some r.now) h))

-- Each request is a rival's, at a positive time at which the lease is not over.
abbrev pub Rivals : String → ℕ → List Request → Type 0
Rivals holder until [] = Unit
Rivals holder until (r ∷ rs) =
    (str_eq holder r.asker ≡ false) × ((0 < r.now) × ((r.now ≤ until) × Rivals holder until rs))

-- While a Hub process holds a lease, no series of requests of other processes, of any length,
-- takes it away or changes when it ends, if each comes before the lease is over.
pub serve-exclusion :
    (name holder : String) (until : ℕ) (rs : List Request) (h : Hub)
    → view name h ≡ some (holder, until)
    → Rivals holder until rs
    → view name (serve name rs h) ≡ some (holder, until)
serve-exclusion name holder until [] h v k = v
serve-exclusion name holder until (r ∷ rs) h v k =
    let step = acquire-grant h r.term r.asker name r.now k.1.0 in
    let late : ltb until r.now ≡ false = ground (arith, k.1.1.0) in
    let kept : grant (view name h) r.asker r.now r.term ≡ (false, some (holder, until)) =
      rw (v, k.0, late) refl in
    serve-exclusion name holder until rs _ (ap (λ p. p.1) (step ∙ kept)) k.1.1.1
