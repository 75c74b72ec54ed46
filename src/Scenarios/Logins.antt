-- ===== src/Scenarios/Logins.antt =====
-- The theorems on logins and sessions at concrete inputs.
use dark_noc.Base.{
  leb, where_rows, first_row, any_row, ◌<◌, ◌≡◌, refl, true, some, List, [], ◌∷◌, arith,
}
use dark_noc.Store.Hub.{Hub}
use dark_noc.Store.Tx.{◌>>=◌, settle, http_status}
use dark_noc.Guards.Attempts.{login_rate_check}
use dark_noc.Guards.Entry.{login}
use dark_noc.Guards.Lasting.{is_accepted, websocket_session_valid-accepted}
use dark_noc.Guards.Limit.{Event, replay, IsPast, failures_since, login_rate_check-since}
use dark_noc.Guards.Limited.{login-limited}
use dark_noc.Guards.Login.{at_time, login_session-Accepted}
use dark_noc.Guards.Sessions.{
  User, current_user, start_session, login_session, websocket_session_valid,
}
use dark_noc.Samples.{world, sample}
use dark_noc.Store.Ends.{answer_of}

abbrev tries : List Event
tries =
    Event.failed "ip" 995
    ∷ Event.checked "ip" 995
    ∷ Event.failed "ip" 990
    ∷ Event.failed "ip" 980
    ∷ Event.failed "ip" 970
    ∷ Event.failed "ip" 960
    ∷ Event.failed "ip" 50
    ∷ []

tries-IsPast : IsPast 1000 tries
unfolding IsPast
tries-IsPast = (
  omega arith,
  (omega arith, (omega arith, (omega arith, (omega arith, (omega arith, (omega arith, tt)))))),
)

login_rate_check-since_example :
    (login_rate_check "ip" 1000 (replay tries)).0 ≡ leb 5 (failures_since "ip" 1000 tries)
login_rate_check-since_example = login_rate_check-since "ip" 1000 tries tries-IsPast

login-limited_example :
    (http_status
        (login world.users world.token_hash world.verify_password "owner" "secret" "ip" "token"
          (record { failures = replay tries; hub = sample })).0
      ≡ 429)
    × ((login world.users world.token_hash world.verify_password "owner" "secret" "ip" "token"
          (record { failures = replay tries; hub = sample })).1.hub.session_table
        ≡ sample.session_table)
unfolding failures_since
login-limited_example =
    login-limited world.users world.token_hash world.verify_password "owner" "secret" "ip" "token"
      tries sample tries-IsPast (omega arith)

abbrev owner_user : User
owner_user = record { id = 1; username = "owner"; password_hash = "secret"; role = "owner" }

abbrev entered : Hub
entered = settle sample (
    login_session world.users world.token_hash world.verify_password "owner" "secret" "ip" "token"
      1000 sample)

login_session-Accepted_example :
    answer_of (current_user world.users world.token_hash (some "token") (at_time 2000 entered))
    ≡ some owner_user
unfolding login_session start_session ◌>>=◌ first_row any_row where_rows
login_session-Accepted_example =
    login_session-Accepted world.users world.token_hash world.verify_password "token" "owner"
      "secret" "ip" owner_user 1000 2000 sample entered refl refl refl

websocket_session_valid-accepted_example :
    (1000 < 5000) × (any_row (is_accepted "token" 1 1000) entered.session_table.rows ≡ true)
unfolding login_session start_session websocket_session_valid ◌>>=◌ first_row any_row where_rows
websocket_session_valid-accepted_example =
    websocket_session_valid-accepted "token" 1 5000 entered refl
