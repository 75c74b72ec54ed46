-- ===== src/Guards/Login.antt =====
-- A login opens a session for twelve hours.
use mathlib.Core.Path.{subst}
use mathlib.Core.Path.{subst}
use dark_noc.Base.{
  ltb, ◌==◌, if◌then◌else◌, Bool-cases, first_row, any_row, ℕ, ◌+◌, ◌*◌, String, ◌≡◌, refl, inl,
  inr, Bool, true, false, ◌&&◌, Option, none, some, List, [], ◌∷◌, ◌++◌, arith, str_eq, eq_iff,
}
use dark_noc.Store.Schema.{Session}
use dark_noc.Store.Table.{Row}
use dark_noc.Store.Hub.{Hub}
use dark_noc.Store.Tx.{◌>>=◌, Result, ok}
use dark_noc.Guards.Sessions.{
  User, is_unexpired, joins, new_session, current_user, start_session, login_session,
}
use dark_noc.Store.Ends.{answer_of}

-- What a login leaves when it commits and found the user.
abbrev pub OnEntry : (User → Hub → Type 0) → Result (Option User × Hub) → Type 0
OnEntry P (ok (some u, h)) = P u h
OnEntry P _ = Unit

-- The database when the clock says `t`.
abbrev pub at_time : ℕ → Hub → Hub
at_time t h = record h { clock = λ n. t }

-- A query for a digest that no row has finds the row that is stored after them, if it passes.
first_row-new :
    (digest : String) (t : ℕ) (test : Row Session → Bool) (rows : List (Row Session))
    (s : Row Session)
    → any_row (λ (r : Row Session). str_eq r.cols.token_hash digest) rows ≡ false
    → first_row (λ r. is_unexpired digest t r && test r) (rows ++ s ∷ [])
      ≡ (if is_unexpired digest t s && test s then some s else none)
unfolding any_row first_row
first_row-new digest t test [] s e = refl
first_row-new digest t test (r ∷ rows) s e = ground (arith, e, first_row-new digest t test rows s)

str_eq-same : (s : String) → str_eq s s ≡ true
str_eq-same s = (eq_iff s s).1 refl

module _ (users : List User) (token_hash : String → String) (verify : String → String → Bool)
    (token : String) where
  -- The guard of the HTTP routes accepts the cookie as this user's exactly until `ends`.
  abbrev Accepted : ℕ → ℕ → User → Hub → Type 0
  Accepted ends t u h =
      first_row (λ (v : User). v.id == u.id) users ≡ some u
      → answer_of (current_user users token_hash (some token) (at_time t h))
        ≡ (if ltb t ends then some u else none)

  start_session-Accepted :
      (u : Option User) (client_ip : String) (now t : ℕ) (h : Hub)
      → str_eq token "" ≡ false
      → OnEntry
          (Accepted (now + 12 * 60 * 60) t)
          (start_session users token_hash verify u (token_hash token) client_ip now h)
  unfolding start_session current_user ◌>>=◌
  start_session-Accepted none client_ip now t h e = tt
  start_session-Accepted (some u) client_ip now t h e =
      let rows = h.session_table.rows in
      elim (Bool-cases
        (any_row (λ (s : Row Session). str_eq s.cols.token_hash (token_hash token)) rows)) [
          | inl taken ↦ rw taken tt
          | inr free ↦ rw free (λ known.
              let fresh : Row Session = record {
                id = h.session_table.next_id;
                cols = new_session (token_hash token) u.id client_ip now;
              } in
              let query = first_row-new (token_hash token) t (joins users) rows fresh free in
              rw (e, query, str_eq-same (token_hash token), known)
                (elim (Bool-cases (ltb t (now + 12 * 60 * 60))) [
                  | inl early ↦ rw (early, known) refl
                  | inr late ↦ rw late refl
                ]))
        ]

  -- After a login that succeeds, the cookie that the operator gets is accepted by the guard of the
  -- HTTP routes exactly until twelve hours after the login, and as the user who logged in. The
  -- token is not empty, and the ids of users differ.
  pub login_session-Accepted :
      (username password client_ip : String) (user : User) (now t : ℕ) (h h' : Hub)
      → str_eq token "" ≡ false
      → first_row (λ (v : User). v.id == user.id) users ≡ some user
      → login_session users token_hash verify username password client_ip token now h
        ≡ ok (some user, h')
      → answer_of (current_user users token_hash (some token) (at_time t h'))
        ≡ (if ltb t (now + 12 * 60 * 60) then some user else none)
  unfolding login_session ◌>>=◌
  login_session-Accepted username password client_ip user now t h h' e known entry =
      subst (OnEntry (Accepted (now + 12 * 60 * 60) t)) entry
        (start_session-Accepted _ client_ip now t _ e) known
