-- ===== src/Guards/Limit.antt =====
-- The limit on failed logins against the history of what happened.
use dark_noc.Base.{
  leb, if◌then◌else◌, length, where_rows, ℕ, suc, ◌≤◌, String, ◌≡◌, refl, sym, ap, true, false,
  ◌&&◌, List, [], ◌∷◌, ◌++◌, arith, str_eq, eq_iff,
}
use dark_noc.Guards.Attempts.{
  Failures, set_at, is_recent, recent_attempts, login_rate_check, login_rate_record,
}

pub data Event : Type 0 where
  checked failed passed : String → ℕ → Event

-- What an event leaves of the failures.
abbrev pub follow : Event → Failures → Failures
follow (checked ip t) failures = (login_rate_check ip t failures).1
follow (failed ip t) failures = login_rate_record ip false t failures
follow (passed ip t) failures = login_rate_record ip true t failures

-- The failures after a history, its newest event first.
unfoldable pub replay : List Event → Failures
replay [] = λ ip. []
replay (e ∷ history) = follow e (replay history)

abbrev pub time_of : Event → ℕ
time_of (checked ip t) = t
time_of (failed ip t) = t
time_of (passed ip t) = t

-- No event is later than `now`.
unfoldable pub IsPast : ℕ → List Event → Type 0
IsPast now [] = Unit
IsPast now (e ∷ history) = (time_of e ≤ now) × IsPast now history

-- The failed logins of an address since it last logged in that are less than 15 minutes old.
unfoldable pub failures_since : String → ℕ → List Event → ℕ
failures_since ip now [] = 0
failures_since ip now (checked other t ∷ history) = failures_since ip now history
failures_since ip now (failed other t ∷ history) =
    let rest = failures_since ip now history in
    if str_eq ip other && is_recent now t then suc rest else rest
failures_since ip now (passed other t ∷ history) =
    let rest = failures_since ip now history in if str_eq ip other then 0 else rest

abbrev count : ℕ → List ℕ → ℕ
count now stamps = length (where_rows (is_recent now) stamps)

-- A stamp that an earlier check dropped is not recent later.
count-earlier :
    (now t : ℕ) (stamps : List ℕ)
    → t ≤ now
    → count now (where_rows (is_recent t) stamps) ≡ count now stamps
unfolding where_rows
count-earlier now t [] h = refl
count-earlier now t (s ∷ stamps) h = ground (arith, count-earlier now t stamps)

count-last :
    (now t : ℕ) (stamps : List ℕ)
    → count now (stamps ++ t ∷ [])
      ≡ (if is_recent now t then suc (count now stamps) else count now stamps)
unfolding where_rows
count-last now t [] = ground arith
count-last now t (s ∷ stamps) = ground (arith, count-last now t stamps)

-- The stamps of an address under another spelling of it.
same_stamps :
    (ip other : String) (failures : Failures)
    → str_eq ip other ≡ true
    → failures other ≡ failures ip
same_stamps ip other failures e = ap failures (sym ((eq_iff ip other).0 e))

count-set_at :
    (ip other : String) (now : ℕ) (stamps : List ℕ) (failures : Failures)
    → count now (set_at other stamps failures ip)
      ≡ (if str_eq ip other then count now stamps else count now (failures ip))
unfolding set_at
count-set_at ip other now stamps failures = ground arith

replay-since :
    (ip : String) (now : ℕ) (history : List Event)
    → IsPast now history
    → count now (replay history ip) ≡ failures_since ip now history
unfolding replay failures_since IsPast login_rate_check login_rate_record where_rows
replay-since ip now [] h = refl
replay-since ip now (checked other t ∷ history) h =
    let kept = recent_attempts other t (replay history) in
    ground (
      arith,
      count-set_at ip other now kept (replay history),
      count-earlier now t (replay history other),
      same_stamps ip other (replay history),
      replay-since ip now history h.1,
    )
replay-since ip now (failed other t ∷ history) h = ground (
  arith,
  count-set_at ip other now (replay history other ++ t ∷ []) (replay history),
  count-last now t (replay history other),
  same_stamps ip other (replay history),
  replay-since ip now history h.1,
)
replay-since ip now (passed other t ∷ history) h =
    ground (arith, count-set_at ip other now [] (replay history), replay-since ip now history h.1)

-- Whatever was checked and recorded up to now, a login from an address is refused exactly if the
-- address failed five times or more within 15 minutes since it last logged in.
pub login_rate_check-since :
    (ip : String) (now : ℕ) (history : List Event)
    → IsPast now history
    → (login_rate_check ip now (replay history)).0 ≡ leb 5 (failures_since ip now history)
unfolding login_rate_check
login_rate_check-since ip now history h = ap (leb 5) (replay-since ip now history h)
