-- ===== src/Realm/Names.antt =====
-- The names that hub/realm_support.py lets through: its regular expressions but for MAP_RE, and
-- `validate_host` and `validate_domain`.
use dark_noc.Base.{
  ltb, leb, ◌==◌, concat, length, any_row, ℕ, String, str_append, Bool, false, not, ◌&&◌, ◌||◌,
  Option, none, some, List, [], ◌∷◌, map, str_eq,
}
use dark_noc.Base.Text.{
  codes, all_codes, any_code, is_letter, is_alnum, has_length, split_text, value,
}
use dark_noc.Fallible.{returned, ◌>>◌, raise_if}
use dark_noc.Store.Tx.{Error}
use dark_noc.Store.Lift.{Checked}
use dark_noc.Incident.Lifecycle.{next}
use dark_noc.Python.{Python}

abbrev pub head_is : (ℕ → Bool) → List ℕ → Bool
head_is test [] = false
head_is test (c ∷ cs) = test c

unfoldable pub last_is : (ℕ → Bool) → List ℕ → Bool
last_is test [] = false
last_is test (c ∷ []) = test c
last_is test (c ∷ d ∷ cs) = last_is test (d ∷ cs)

-- [A-Za-z0-9](?:[…]{0,high - 2}[A-Za-z0-9])?, where the inner characters pass a test
abbrev pub is_framed : (ℕ → Bool) → ℕ → List ℕ → Bool
is_framed inner high cs =
    head_is is_alnum cs && last_is is_alnum cs && all_codes inner cs && has_length 1 high cs

abbrev pub is_label_code : ℕ → Bool
is_label_code c = is_alnum c || c == b'-'

-- HOST_RE
unfoldable pub match_host : List ℕ → Bool
match_host cs = is_framed (λ c. is_label_code c || c == b'.') 253 cs

-- the labels before the last, and the last: (?:[…]\.)+[A-Za-z]{2,63}
unfoldable pub are_labels : List (List ℕ) → Bool
are_labels [] = false
are_labels (top ∷ []) = all_codes is_letter top && has_length 2 63 top
are_labels (label ∷ next ∷ labels) = is_framed is_label_code 63 label && are_labels (next ∷ labels)

-- DOMAIN_RE
unfoldable pub match_domain : String → Bool
match_domain text =
    let labels = map codes (split_text b'.' text) in leb 2 (length labels) && are_labels labels

abbrev pub is_path_code : ℕ → Bool
is_path_code c = is_alnum c || c == b'.' || c == b'_' || c == b'~' || c == b'/' || c == b'-'

-- WS_PATH_RE
unfoldable pub match_ws_path : List ℕ → Bool
match_ws_path [] = false
match_ws_path (c ∷ cs) = c == b'/' && all_codes is_path_code cs && has_length 1 127 cs

abbrev pub is_alpn_code : ℕ → Bool
is_alpn_code c = is_alnum c || c == b'.' || c == b'/' || c == b'_' || c == b'-'

-- ALPN_RE
unfoldable pub match_alpn : String → Bool
match_alpn text = not (
    any_row (λ part. not (all_codes is_alpn_code part && has_length 1 32 part))
      (map codes (split_text b',' text)))

-- not part or len(part) > 63 or part.startswith("-") or part.endswith("-")
abbrev pub is_bad_label : List ℕ → Bool
is_bad_label part =
    length part == 0
    || ltb 63 (length part)
    || head_is (λ c. c == b'-') part
    || last_is (λ c. c == b'-') part

abbrev pub has_blank : String → Bool
has_blank text = any_code (λ c. ltb c 33) (codes text)

module _ (py : Python) where
  unfoldable pub validate_domain : String → String → Checked String
  validate_domain value label = do
    let text = py.without_dots (py.casefold (py.strip value))
    raise_if (not (match_domain text))
        (Error.http 422 (concat ("Realm " ∷ label ∷ " must be a valid DNS domain" ∷ [])))
    returned text

-- `ip_address` is ipaddress.ip_address(text).compressed, `none` for a ValueError
module _ (py : Python) (ip_address : String → Option String) where
  abbrev pub host_name : String → String → Option String → Checked String
  host_name text label (some compressed) = returned compressed
  host_name text label none = do
    raise_if
        (not (match_host (codes text)) || any_row is_bad_label (map codes (split_text b'.' text)))
        (Error.http 422 (str_append "Invalid Realm " label))
    returned (py.casefold text)

  unfoldable pub validate_host : String → String → Checked String
  validate_host value label = do
    let text = py.without_dots (py.strip value)
    raise_if (str_eq text "" || ltb 253 (length (codes text)) || has_blank text)
        (Error.http 422 (str_append "Invalid Realm " label))
    host_name text label (ip_address text)
