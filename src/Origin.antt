-- ===== src/Origin.antt =====
-- hub/security_runtime.py: which browser requests may change something. urllib's urlsplit and the
-- upper case of a text are parameters.
pub mod Enforced
use dark_noc.Base.{
  ltb, ◌==◌, if◌then◌else◌, is_some, concat, text_else, ℕ, zero, suc, String, Bool, false, not,
  ◌&&◌, ◌||◌, Option, none, some, [], ◌∷◌, str_eq,
}
use dark_noc.Base.Json.{str}
use dark_noc.Base.Text.{codes, any_code}
use dark_noc.Fleet.Payload.{is_among}
use dark_noc.Monitoring.{upper}
use dark_noc.Python.{Python}

-- What urlsplit gives; `port` is `none` where reading it raises a ValueError.
pub record Url : Type 0 where
  pub scheme : String
  pub username : Option String
  pub password : Option String
  pub hostname : Option String
  pub path : String
  pub query : String
  pub fragment : String
  pub port : Option (Option ℕ)

pub record Origin : Type 0 where
  pub scheme : String
  pub host : String
  pub port : ℕ

-- The environment variables DARK_NOC_PUBLIC_HOST and DARK_NOC_PUBLIC_PORT, empty if they are not set.
pub record Environment : Type 0 where
  pub public_host : String
  pub public_port : String

-- any(ord(char) < 33 for char in text)
unfoldable pub has_space : String → Bool
has_space text = any_code (λ c. ltb c 33) (codes text)

-- port or (443 if scheme == "https" else 80)
abbrev pub port_or : String → Option ℕ → ℕ
port_or scheme none = if str_eq scheme "https" then 443 else 80
port_or scheme (some zero) = if str_eq scheme "https" then 443 else 80
port_or scheme (some (suc n)) = suc n

abbrev pub is_known : Option Origin → Bool
is_known o = is_some o

-- actual and expected and actual == expected
abbrev pub matches : Option Origin → Option Origin → Bool
matches (some a) (some b) = str_eq a.scheme b.scheme && str_eq a.host b.host && a.port == b.port
matches _ _ = false

abbrev pub names_user : Url → Bool
names_user u = is_some u.username || is_some u.password

-- headers.get(key, "")
abbrev pub header : (String → Option String) → String → String
header headers key = elim (headers key) [ none ↦ "" | some s ↦ s ]

abbrev pub is_foreign : String → Bool
is_foreign site = is_among site ("cross-site" ∷ "same-site" ∷ [])

module _ (py : Python) (urlsplit : String → Option Url) where
  abbrev pub host_name : String → String
  host_name hostname = py.casefold (py.without_dots hostname)

  abbrev pub origin_of : String → String → Option (Option ℕ) → Option Origin
  origin_of scheme hostname none = none
  origin_of scheme hostname (some port) =
      some (record { scheme = scheme; host = host_name hostname; port = port_or scheme port })

  -- The host and port of a Host header, with the scheme.
  abbrev pub host_of_url : String → Url → Option Origin
  host_of_url scheme u = elim u.hostname [
    | none ↦ none
    | some hostname ↦
        if names_user u || str_eq hostname "" then none else origin_of scheme hostname u.port
  ]

  abbrev pub host_of : String → Option Url → Option Origin
  host_of scheme none = none
  host_of scheme (some u) = host_of_url scheme u

  unfoldable pub host_port : String → String → Option Origin
  host_port host scheme =
      let text = py.strip host in
      if str_eq text "" || has_space text
      then none
      else host_of scheme (urlsplit (concat (scheme ∷ "://" ∷ text ∷ [])))

  abbrev pub is_browser_scheme : String → Bool
  is_browser_scheme scheme = is_among scheme ("http" ∷ "https" ∷ [])

  abbrev pub origin_of_url : Url → Option Origin
  origin_of_url u = elim u.hostname [
    | none ↦ none
    | some hostname ↦
        if not (is_browser_scheme (py.casefold u.scheme))
          || names_user u
          || str_eq hostname ""
          || not (is_among u.path ("" ∷ "/" ∷ []))
          || not (str_eq u.query "")
          || not (str_eq u.fragment "")
        then none
        else origin_of (py.casefold u.scheme) hostname u.port
  ]

  abbrev pub origin_in : Option Url → Option Origin
  origin_in none = none
  origin_in (some u) = origin_of_url u

  unfoldable pub origin_tuple : String → Option Origin
  origin_tuple origin =
      let text = py.strip origin in
      if str_eq text "" || str_eq (py.casefold text) "null" || has_space text
      then none
      else origin_in (urlsplit text)

  abbrev pub with_port : Option ℕ → Option Origin → Option Origin
  with_port none o = none
  with_port (some port) none = none
  with_port (some port) (some o) =
      if ltb port 1 || ltb 65535 port
      then none
      else some (record { scheme = "https"; host = o.host; port = port })

  unfoldable pub configured_origin : Environment → Option Origin
  configured_origin env =
      let host = py.strip env.public_host in
      let port = text_else (some (py.strip env.public_port)) "443" in
      if str_eq host "" then none else with_port (py.int (str port)) (host_port host "https")

  abbrev pub or_origin : Option Origin → Option Origin → Option Origin
  or_origin none other = other
  or_origin (some o) other = some o

  unfoldable pub expected_browser_origin :
      Environment → (String → Option String) → String → Option Origin
  expected_browser_origin env headers request_scheme =
      let scheme =
        if is_among (py.casefold request_scheme) ("https" ∷ "wss" ∷ []) then "https" else "http" in
      or_origin (configured_origin env) (host_port (header headers "host") scheme)

  abbrev pub fetch_site : (String → Option String) → String
  fetch_site headers = py.casefold (py.strip (header headers "sec-fetch-site"))

  unfoldable pub browser_origin_allowed : Environment → (String → Option String) → String → Bool
  browser_origin_allowed env headers request_scheme =
      let origin = py.strip (header headers "origin") in
      if is_foreign (fetch_site headers)
      then false
      else if str_eq origin ""
      then not (is_foreign (fetch_site headers))
      else matches (origin_tuple origin) (expected_browser_origin env headers request_scheme)

  -- The answer is the status of the HTTPException, where one is raised.
  unfoldable pub enforce_http_origin :
      (String → String)
      → Environment
      → String
      → String
      → (String → Option String)
      → String
      → Option ℕ
  enforce_http_origin upper env method path headers request_scheme =
      if is_among (upper method) ("GET" ∷ "HEAD" ∷ "OPTIONS" ∷ []) || not (py.starts "/api/" path)
      then none
      else if browser_origin_allowed env headers request_scheme
      then none
      else some 403
