-- ===== src/Guards/Sessions.antt =====
-- Sessions of operators: the transactions of `login` and `logout` of hub/auth_router.py, and
-- `current_user`, `websocket_user` and `websocket_session_valid` of hub/app.py. The table of users is
-- a list, which no request changes.
use dark_noc.Base.{
  ltb, leb, ◌==◌, if◌then◌else◌, is_some, text_else, first_row, ℕ, ◌+◌, min, String, Bool, false,
  ◌&&◌, ◌||◌, Option, none, some, List, str_eq,
}
use dark_noc.Store.Schema.{Session}
use dark_noc.Store.Table.{Row}
use dark_noc.Store.Hub.{sessions}
use dark_noc.Store.Tx.{
  ◌>>=◌, ◌>>◌, Tx, pure, found, utc_ts, insert, delete, fetch_one, refuse_clash,
}

pub record User : Type 0 where
  pub id : ℕ
  pub username : String
  pub password_hash : String
  pub role : String

-- 12 * 60 * 60
abbrev pub session_ttl : ℕ
session_ttl = 43200

-- token_hash=? AND expires_at>?
abbrev pub is_unexpired : String → ℕ → Row Session → Bool
is_unexpired digest now s = str_eq s.cols.token_hash digest && ltb now s.cols.expires_at

-- created_at>? with the reading less SESSION_TTL
abbrev pub is_young : ℕ → Row Session → Bool
is_young now s = ltb now (s.cols.created_at + session_ttl)

-- JOIN users ON users.id=sessions.user_id
abbrev pub user_of : List User → Row Session → Option User
user_of users s = first_row (λ (u : User). u.id == s.cols.user_id) users

abbrev pub joins : List User → Row Session → Bool
joins users s = is_some (user_of users s)

abbrev pub owner : List User → Option (Row Session) → Option User
owner users none = none
owner users (some s) = user_of users s

-- DELETE FROM sessions WHERE expires_at<=? OR created_at<=?
abbrev pub is_ended : ℕ → Row Session → Bool
is_ended now s = leb s.cols.expires_at now || leb (s.cols.created_at + session_ttl) now

abbrev pub new_session : String → ℕ → String → ℕ → Session
new_session digest user_id client_ip now = record {
  token_hash = digest;
  user_id = user_id;
  expires_at = now + session_ttl;
  ip = some client_ip;
  created_at = now;
}

-- A cookie that is missing or empty is no token.
abbrev pub token_of : Option String → Option String
token_of none = none
token_of (some token) = if str_eq token "" then none else some token

module _ (users : List User) (token_hash : String → String) where
  unfoldable pub current_user : Option String → Tx User
  current_user cookie = do
    token ← found (token_of cookie) 401 "Authentication required"
    now ← utc_ts
    row ← fetch_one sessions (λ s. is_unexpired (token_hash token) now s && joins users s)
    found (owner users row) 401 "Session expired"

  -- The user of a token that is there.
  unfoldable pub find_session : String → Tx (Option User)
  find_session token = do
    now ← utc_ts
    later ← utc_ts
    row ←
        fetch_one sessions
          (λ s. is_unexpired (token_hash token) now s && is_young later s && joins users s)
    pure (owner users row)

  unfoldable pub websocket_user : Option String → Tx (Option User)
  websocket_user cookie = elim (token_of cookie) [
    | none ↦ pure none
    | some token ↦ find_session token
  ]

  unfoldable pub logout : Option String → Tx (Unit {0})
  logout cookie = delete sessions (λ s. str_eq s.cols.token_hash (token_hash (text_else cookie "")))

  module _ (verify_password : String → String → Bool) where
    -- The user whose password this is.
    abbrev pub verified : String → Option User → Option User
    verified password none = none
    verified password (some u) = if verify_password password u.password_hash then some u else none

    unfoldable pub start_session : Option User → String → String → ℕ → Tx (Option User)
    start_session none digest client_ip now = pure none
    start_session (some u) digest client_ip now = do
      refuse_clash sessions (λ s. str_eq s.cols.token_hash digest)
      insert sessions (new_session digest u.id client_ip now)
      pure (some u)

    -- The transaction of a login; `token` is secrets.token_urlsafe(42).
    unfoldable pub login_session : String → String → String → String → ℕ → Tx (Option User)
    login_session username password client_ip token now = do
      delete sessions (is_ended now)
      let user = first_row (λ (u : User). str_eq u.username username) users
      start_session (verified password user) (token_hash token) client_ip now

    -- now = utc_ts() and the transaction
    unfoldable pub sign_in : String → String → String → String → Tx (Option User)
    sign_in username password client_ip token = do
      now ← utc_ts
      login_session username password client_ip token now

abbrev pub lasts_until : ℕ → ℕ → Option (Row Session) → Bool
lasts_until now deadline none = false
lasts_until now deadline (some s) =
    ltb now (min (min s.cols.expires_at (s.cols.created_at + session_ttl)) deadline)

abbrev pub is_session_of : String → ℕ → Row Session → Bool
is_session_of digest user_id s = str_eq s.cols.token_hash digest && s.cols.user_id == user_id

unfoldable pub websocket_session_valid : String → ℕ → ℕ → Tx Bool
websocket_session_valid digest user_id deadline = do
  now ← utc_ts
  if leb deadline now then pure false else (do
    row ← fetch_one sessions (is_session_of digest user_id)
    pure (lasts_until now deadline row))
