-- ===== src/Guards/Keeps.antt =====
-- Login and logout keep the database consistent.
use dark_noc.Base.{ℕ, String, Bool, Option, none, some, List}
use dark_noc.Store.Keeps.{Keeps, Keeps-pure}
use dark_noc.Store.Governed.{keeps_rules}
use dark_noc.Guards.Sessions.{User, logout, start_session, login_session, sign_in}

pub logout-Keeps :
    (users : List User) (hash : String → String) (cookie : Option String)
    → Keeps (logout users hash cookie)
unfolding logout
logout-Keeps users hash cookie = search keeps_rules depth 8

module _ (users : List User) (hash : String → String) (verify : String → String → Bool) where
  start_session-Keeps :
      (u : Option User) (digest client_ip : String) (now : ℕ)
      → Keeps (start_session users hash verify u digest client_ip now)
  unfolding start_session
  start_session-Keeps none digest client_ip now = Keeps-pure none
  start_session-Keeps (some u) digest client_ip now = search keeps_rules depth 16

  pub sign_in-Keeps :
      (username password client_ip token : String)
      → Keeps (sign_in users hash verify username password client_ip token)
  unfolding sign_in login_session
  sign_in-Keeps username password client_ip token =
      search (keeps_rules, start_session-Keeps) depth 16
