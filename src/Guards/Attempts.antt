-- ===== src/Guards/Attempts.antt =====
-- `login_rate_check` and `login_rate_record` of hub/app.py. LOGIN_FAILURES is a function: an
-- address that it does not have has no failures.
use dark_noc.Base.{
  ltb, leb, if◌then◌else◌, length, where_rows, ℕ, ◌+◌, String, Bool, true, false, List, [], ◌∷◌,
  ◌++◌, str_eq,
}

-- The times of the failed logins of an address, oldest first.
abbrev pub Failures : Type 0
Failures = String → List ℕ

-- failures[ip] = stamps
unfoldable pub set_at : String → List ℕ → Failures → Failures
set_at ip stamps failures other = if str_eq other ip then stamps else failures other

-- stamp > now - 15 * 60
abbrev pub is_recent : ℕ → ℕ → Bool
is_recent now stamp = ltb now (stamp + 900)

abbrev pub recent_attempts : String → ℕ → Failures → List ℕ
recent_attempts ip now failures = where_rows (is_recent now) (failures ip)

-- The answer is whether the check raises 429; the old stamps are dropped in either case.
unfoldable pub login_rate_check : String → ℕ → Failures → Bool × Failures
login_rate_check ip now failures =
    let attempts = recent_attempts ip now failures in
    (leb 5 (length attempts), set_at ip attempts failures)

unfoldable pub login_rate_record : String → Bool → ℕ → Failures → Failures
login_rate_record ip true now failures = set_at ip [] failures
login_rate_record ip false now failures = set_at ip (failures ip ++ now ∷ []) failures
