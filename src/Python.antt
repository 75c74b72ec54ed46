-- ===== src/Python.antt =====
-- What the program takes from Python and sqlite3: reading and printing JSON, conversions, and what
-- sqlite3 stores for a value. They are parameters of the operations that use them.
use dark_noc.Base.{ℕ, String, Bool, Option, List}
use dark_noc.Base.Json.{Json, Dict}

pub record Python : Type 0 where
  -- json.loads, `none` for a JSONDecodeError
  pub loads : String → Option Json
  pub dumps : Dict → String
  -- str of a JSON value
  pub text : Json → String
  -- int and float, `none` for a TypeError or ValueError; a negative integer counts as 0
  pub int : Json → Option ℕ
  pub float : Json → Option Json
  -- the text that a TEXT column stores for a value (`none` for NULL), unless sqlite3 refuses it
  pub column : Json → Option (Option String)
  -- the value that an INTEGER or REAL column stores (`none` for NULL), unless sqlite3 refuses it
  pub numeric : Json → Option (Option Json)
  -- for a float: value >= limit, and value < limit * 0.9
  pub reaches : Json → ℕ → Bool
  pub recovers : Json → ℕ → Bool
  -- str.strip, str.casefold, `a in b` and `b.startswith(a)` as `contains a b` and `starts a b`
  pub strip : String → String
  pub casefold : String → String
  pub contains : String → String → Bool
  pub starts : String → String → Bool
  -- s.rstrip("."), and ', '.join(sorted(parts))
  pub without_dots : String → String
  pub listed : List String → String
