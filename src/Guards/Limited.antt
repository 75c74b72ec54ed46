-- ===== src/Guards/Limited.antt =====
-- The limit on failed logins holds at the route.
use dark_noc.Base.{◌≤◌, String, ◌≡◌, refl, Bool, true, List, arith}
use dark_noc.Store.Hub.{Hub}
use dark_noc.Store.Tx.{http_status}
use dark_noc.Guards.Attempts.{login_rate_check}
use dark_noc.Guards.Entry.{login}
use dark_noc.Guards.Limit.{Event, replay, IsPast, failures_since, login_rate_check-since}
use dark_noc.Guards.Sessions.{User}

module _ (users : List User) (token_hash : String → String) (verify : String → String → Bool) where
  -- Whatever was checked and recorded before, an address that failed five times within 15 minutes
  -- since it last logged in gets 429 for any user and password, and no session is opened or closed.
  pub login-limited :
      (username password client_ip token : String) (history : List Event) (h : Hub)
      → IsPast (h.clock h.readings) history
      → 5 ≤ failures_since client_ip (h.clock h.readings) history
      → (http_status
            (login users token_hash verify username password client_ip token
              (record { failures = replay history; hub = h })).0
          ≡ 429)
        × ((login users token_hash verify username password client_ip token
              (record { failures = replay history; hub = h })).1.hub.session_table
            ≡ h.session_table)
  unfolding login
  login-limited username password client_ip token history h past enough =
      let refused : (login_rate_check client_ip (h.clock h.readings) (replay history)).0 ≡ true =
        ground
          (arith, enough, login_rate_check-since client_ip (h.clock h.readings) history past) in
      (rw refused refl, rw refused refl)
