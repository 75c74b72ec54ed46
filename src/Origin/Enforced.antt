-- ===== src/Origin/Enforced.antt =====
-- The policy that the check of the browser's origin implements.
-- The order in which the source tests an address, and that of the policy.
use dark_noc.Base.{
  ◌==◌, if◌then◌else◌, Option-cases, ℕ, String, ◌≡◌, refl, inl, inr, Bool, true, false, not, ◌&&◌,
  ◌||◌, Option, none, some, [], ◌∷◌, arith, str_eq,
}
use dark_noc.Base.Text.{value}
use dark_noc.Fleet.Payload.{is_among}
use dark_noc.Origin.{
  Url, Origin, Environment, has_space, port_or, matches, names_user, host_name, is_browser_scheme,
  origin_of_url, origin_tuple, configured_origin, expected_browser_origin, browser_origin_allowed,
  enforce_http_origin,
}
use dark_noc.Python.{Python}
use dark_noc.Realm.Mappings.{port}

regroup :
    (same known empty host door user plain query bare : Bool)
    → (same
        && host
        && door
        && not (not known || user || empty || not plain || not query || not bare))
      ≡ (same && known && (not empty && host) && door && not user && plain && query && bare)
regroup false known empty host door user plain query bare = refl
regroup true false empty false door user plain query bare = ground arith
regroup true false empty true false user plain query bare = refl
regroup true false empty true true user plain query bare = ground arith
regroup true true empty host door user plain query bare = ground arith

module _ (py : Python) (urlsplit : String → Option Url) (o : Origin) where
  -- A host that is named, and that is the Hub's.
  abbrev is_host : Option String → Bool
  is_host none = false
  is_host (some hostname) =
      not (str_eq hostname "") && str_eq (host_name py urlsplit hostname) o.host

  -- A port that can be read, and that is the Hub's; the port that goes with the scheme if none is given.
  abbrev is_port : String → Option (Option ℕ) → Bool
  is_port scheme none = false
  is_port scheme (some port) = port_or scheme port == o.port

  -- An address of scheme, host and port alone, and these are the Hub's.
  abbrev is_hub : Url → Bool
  is_hub u =
      str_eq (py.casefold u.scheme) o.scheme
      && is_browser_scheme py urlsplit (py.casefold u.scheme)
      && is_host u.hostname
      && is_port (py.casefold u.scheme) u.port
      && not (names_user u)
      && is_among u.path ("" ∷ "/" ∷ [])
      && str_eq u.query ""
      && str_eq u.fragment ""

  abbrev reads_hub : Option Url → Bool
  reads_hub none = false
  reads_hub (some u) = is_hub u

  -- A text of an Origin header that names the Hub.
  abbrev names_hub : String → Bool
  names_hub text =
      reads_hub (urlsplit text)
      && not (str_eq text "")
      && not (str_eq (py.casefold text) "null")
      && not (has_space text)

  abbrev given : Option String → String
  given value = elim value [ none ↦ "" | some s ↦ s ]

  -- What a request is answered that may change something, from its Sec-Fetch-Site and Origin.
  abbrev pub origin_policy : Option String → Option String → Option ℕ
  origin_policy site origin =
      if is_among (py.casefold (py.strip (given site))) ("cross-site" ∷ "same-site" ∷ [])
      then some 403
      else if str_eq (py.strip (given origin)) "" || names_hub (py.strip (py.strip (given origin)))
      then none
      else some 403

  matches-unless :
      (b : Bool) (x : Option Origin)
      → matches (if b then none else x) (some o) ≡ (matches x (some o) && not b)
  matches-unless true none = refl
  matches-unless true (some x) = ground arith
  matches-unless false none = refl
  matches-unless false (some x) = ground arith

  matches-hub : (u : Url) → matches (origin_of_url py urlsplit u) (some o) ≡ is_hub u
  matches-hub u = elim (Option-cases u.hostname) [
    | inl e ↦ rw e ground arith
    | inr (hostname, e) ↦
        rw (e, matches-unless)
          (elim (Option-cases u.port) [
            | inl f ↦ rw f ground arith
            | inr (number, f) ↦ rw f (
                regroup (str_eq (py.casefold u.scheme) o.scheme)
                  (is_browser_scheme py urlsplit (py.casefold u.scheme)) (str_eq hostname "")
                  (str_eq (host_name py urlsplit hostname) o.host)
                  (port_or (py.casefold u.scheme) number == o.port) (names_user u)
                  (is_among u.path ("" ∷ "/" ∷ [])) (str_eq u.query "") (str_eq u.fragment ""))
          ])
  ]

  matches-text :
      (text : String) → matches (origin_tuple py urlsplit text) (some o) ≡ names_hub (py.strip text)
  unfolding origin_tuple
  matches-text text = rw (matches-unless) (elim (Option-cases (urlsplit (py.strip text))) [
    | inl e ↦ rw e ground arith
    | inr (u, e) ↦ rw (e, matches-hub u) ground arith
  ])

  -- When the Hub's public address is configured, a request is answered exactly so: it is let through
  -- if its method is GET, HEAD or OPTIONS or its path is not under /api/; any other request gets 403
  -- if Sec-Fetch-Site says that it comes from another site, or if it has an Origin that is not a
  -- plain address of the configured scheme, host and port. Its Host header, its other headers and
  -- the scheme with which it arrives do not count.
  pub enforce_http_origin-configured :
      (upper : String → String) (env : Environment) (method path : String)
      (headers : String → Option String) (scheme : String)
      → configured_origin py urlsplit env ≡ some o
      → enforce_http_origin py urlsplit upper env method path headers scheme ≡ (
          if is_among (upper method) ("GET" ∷ "HEAD" ∷ "OPTIONS" ∷ [])
            || not (py.starts "/api/" path)
          then none
          else origin_policy (headers "sec-fetch-site") (headers "origin"))
  unfolding enforce_http_origin browser_origin_allowed expected_browser_origin
  enforce_http_origin-configured upper env method path headers scheme c =
      rw (c, matches-text) (ground arith)
