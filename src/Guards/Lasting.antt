-- ===== src/Guards/Lasting.antt =====
-- How long a WebSocket stays open on a session.
use dark_noc.Base.{
  leb, Bool-cases, Option-cases, first_row, any_row, first_row-test, any_row-first_row, ℕ, ◌<◌,
  String, ◌≡◌, refl, inl, inr, Bool, true, false, not, ◌&&◌, Option, some, List, arith,
}
use dark_noc.Store.Schema.{Session}
use dark_noc.Store.Table.{Row}
use dark_noc.Store.Hub.{Hub}
use dark_noc.Store.Tx.{◌>>=◌, Result, ok, err}
use dark_noc.Guards.Sessions.{
  is_unexpired, is_young, lasts_until, is_session_of, websocket_session_valid,
}

-- What a check that cannot fail says.
abbrev pub says : Result (Bool × Hub) → Bool
says (ok (b, h)) = b
says (err e) = false

-- A session of the user that the guards of the HTTP routes and of a WebSocket accept.
abbrev pub is_accepted : String → ℕ → ℕ → Row Session → Bool
is_accepted digest user_id now s =
    is_session_of digest user_id s && is_unexpired digest now s && is_young now s

first_row-accepted :
    (test query : Row Session → Bool) (rows : List (Row Session)) (s : Row Session)
    → first_row test rows ≡ some s
    → query s ≡ true
    → any_row query rows ≡ true
first_row-accepted test query rows s e k = elim (Bool-cases (any_row query rows)) [
  | inl here ↦ here
  | inr nowhere ↦ absurd (cc (k, any_row-first_row query test rows s nowhere e))
]

module _ (digest : String) (user_id deadline : ℕ) where
  -- The session that the check looks at.
  abbrev session_row : Hub → Option (Row Session)
  session_row h = first_row (is_session_of digest user_id) h.session_table.rows

  says_lem :
      (h : Hub)
      → says (websocket_session_valid digest user_id deadline h) ≡ (
          not (leb deadline (h.clock h.readings))
          && lasts_until (h.clock h.readings) deadline (session_row h))
  unfolding websocket_session_valid ◌>>=◌
  says_lem h = elim (Bool-cases (leb deadline (h.clock h.readings))) [
    | inl over ↦ rw over refl
    | inr open_still ↦ rw open_still refl
  ]

  -- A WebSocket that stays open is before its deadline, and its user has a session that a new
  -- request would be accepted with.
  pub websocket_session_valid-accepted :
      (h : Hub)
      → says (websocket_session_valid digest user_id deadline h) ≡ true
      → (h.clock h.readings < deadline)
        × (any_row (is_accepted digest user_id (h.clock h.readings)) h.session_table.rows ≡ true)
  websocket_session_valid-accepted h e = elim (Option-cases (session_row h)) [
    | inl missing ↦ absurd (ground (arith, e, says_lem h, missing))
    | inr (s, there) ↦ (
      ground (arith, e, says_lem h, there),
      first_row-accepted (is_session_of digest user_id)
          (is_accepted digest user_id (h.clock h.readings)) h.session_table.rows s there
          (ground (
            arith,
            e,
            says_lem h,
            there,
            first_row-test (is_session_of digest user_id) h.session_table.rows s there,
          )),
    )
  ]
