-- ===== src/Scenarios/Browsers.antt =====
-- The check of the browser's origin at a concrete request.
use dark_noc.Base.{
  if◌then◌else◌, String, ◌≡◌, refl, true, false, ◌||◌, Option, none, some, [], ◌∷◌, str_eq,
}
use dark_noc.Base.Text.{codes, any_code}
use dark_noc.Fleet.Payload.{is_among}
use dark_noc.Origin.{
  Url, Origin, Environment, has_space, host_port, configured_origin, enforce_http_origin,
}
use dark_noc.Origin.Enforced.{origin_policy, enforce_http_origin-configured}
use dark_noc.Python.{Python}
use dark_noc.Samples.{sample_py}

abbrev api_py : Python
api_py = record sample_py { starts = λ a b. true; int = λ j. some 443 }

-- urlsplit of the Hub's own address
abbrev split_own : String → Option Url
split_own s = some (record {
  scheme = "https";
  username = none;
  password = none;
  hostname = some "noc.example";
  path = "";
  query = "";
  fragment = "";
  port = some none;
})

abbrev own_headers : String → Option String
own_headers key =
    if str_eq key "origin"
    then some "https://noc.example"
    else if str_eq key "host"
    then some "noc.example"
    else none

abbrev public_settings : Environment
public_settings = record { public_host = "noc.example"; public_port = "443" }

abbrev public_origin : Origin
public_origin = record { scheme = "https"; host = "noc.example"; port = 443 }

enforce_http_origin-configured_example :
    enforce_http_origin api_py split_own (λ s. s) public_settings "POST" "/api/x" own_headers "http"
    ≡ (if is_among "POST" ("GET" ∷ "HEAD" ∷ "OPTIONS" ∷ []) || false
        then none
        else origin_policy api_py split_own public_origin none (some "https://noc.example"))
unfolding configured_origin host_port has_space any_code codes
enforce_http_origin-configured_example =
    enforce_http_origin-configured api_py split_own public_origin (λ s. s) public_settings "POST"
      "/api/x" own_headers "http" refl
