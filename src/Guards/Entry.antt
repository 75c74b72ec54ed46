-- ===== src/Guards/Entry.antt =====
-- The route `login` of hub/auth_router.py: the limit, the session and the record of the outcome. The
-- audit log and the cookie's attributes are left out.
use dark_noc.Base.{if◌then◌else◌, suc, String, Bool, true, false, Option, none, some, List}
use dark_noc.Store.Hub.{Hub}
use dark_noc.Store.Tx.{Error, Result, ok, err}
use dark_noc.Guards.Attempts.{Failures, login_rate_check, login_rate_record}
use dark_noc.Guards.Sessions.{User, sign_in}

-- What the process keeps in memory and what it keeps in the database.
pub record Door : Type 0 where
  pub failures : Failures
  pub hub : Hub

module _ (users : List User) (token_hash : String → String)
    (verify_password : String → String → Bool) where
  -- The route after the transaction has ended.
  unfoldable pub finish_login :
      String → Failures → Hub → Result (Option User × Hub) → Result User × Door
  finish_login client_ip failures before (ok (some user, h)) =
      (ok user, record { failures = login_rate_record client_ip true 0 failures; hub = h })
  finish_login client_ip failures before (ok (none, h)) = (
    err (Error.http 401 "Invalid username or password"),
    record {
      failures = login_rate_record client_ip false (h.clock h.readings) failures;
      hub = record h { readings = suc h.readings };
    },
  )
  finish_login client_ip failures before (err e) =
      (err e, record { failures = failures; hub = before })

  unfoldable pub admit : String → String → String → String → Failures → Hub → Result User × Door
  admit username password client_ip token failures h =
      finish_login client_ip failures h
        (sign_in users token_hash verify_password username password client_ip token h)

  unfoldable pub login : String → String → String → String → Door → Result User × Door
  login username password client_ip token door =
      let h = record door.hub { readings = suc door.hub.readings } in
      let checked = login_rate_check client_ip (door.hub.clock door.hub.readings) door.failures in
      if checked.0
      then (
        err (Error.http 429 "Too many login attempts; try again in 15 minutes"),
        record { failures = checked.1; hub = h },
      )
      else admit username password client_ip token checked.1 h
