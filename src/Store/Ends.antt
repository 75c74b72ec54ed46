-- ===== src/Store/Ends.antt =====
-- What holds of the state that a transaction leaves when it commits, as its last steps decide.
use dark_noc.Base.{Option, none, some}
use dark_noc.Store.Hub.{Hub}
use dark_noc.Store.Tx.{◌>>=◌, Result, ok, err, Tx, pure, continue, settle}

abbrev pub OnCommit : {A : Type 0} → (Hub → Type 0) → Result (A × Hub) → Type 0
OnCommit P (ok (a, h)) = P h
OnCommit P (err e) = Unit

pub record Ends {A : Type 0} (P : Hub → Type 0) (m : Tx A) : Type 0 where
  pub at : (h : Hub) → OnCommit P (m h)

module _ {A B : Type 0} (P : Hub → Type 0) where
  on_continue :
      (f : A → Tx B) (x : Result (A × Hub)) → ((a : A) → Ends P (f a)) → OnCommit P (continue x f)
  on_continue f (ok (a, h)) k = (k a).at h
  on_continue f (err e) k = tt

  -- The last steps decide.
  pub Ends-later : (m : Tx A) (f : A → Tx B) → ((a : A) → Ends P (f a)) → Ends P (m >>= f)
  unfolding ◌>>=◌
  Ends-later m f k = record { at = λ h. on_continue f (m h) k }

  on_last : (b : B) (x : Result (A × Hub)) → OnCommit P x → OnCommit P (continue x (λ _. pure b))
  unfolding ◌>>=◌
  on_last b (ok (a, h)) p = p
  on_last b (err e) p = tt

  -- An answer changes nothing.
  pub Ends-answer : (m : Tx A) (b : B) → Ends P m → Ends P (m >>= λ _. pure b)
  unfolding ◌>>=◌
  Ends-answer m b e = record { at = λ h. on_last b (m h) (e.at h) }

-- What has to hold of a state holds of the state that a transaction leaves when it commits.
pub Ends-settle :
    {A : Type 0} (P : Hub → Type 0) (m : Tx A) → ((h : Hub) → P (settle h (m h))) → Ends P m
Ends-settle {A = A} P m k = record { at = λ h. committed (m h) h (k h) }
  where
    committed : (x : Result (A × Hub)) (h : Hub) → P (settle h x) → OnCommit P x
    committed (ok (a, h')) h p = p
    committed (err e) h p = tt

-- What a request answers when it commits.
abbrev pub answer_of : {A : Type 0} → Result (A × Hub) → Option A
answer_of (ok (a, h)) = some a
answer_of (err e) = none
