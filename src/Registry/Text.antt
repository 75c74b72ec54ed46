-- ===== src/Registry/Text.antt =====
-- The texts and lists of a manifest: `_text`, `_string_list` and the regular expressions of
-- hub/plugin_registry.py.
use dark_noc.Base.{
  ltb, ◌==◌, if◌then◌else◌, concat, length, ℕ, suc, String, str_append, Bool, false, not, ◌&&◌,
  ◌||◌, Option, none, some, List, [], ◌∷◌, str_eq,
}
use dark_noc.Base.Json.{Json, str, arr, Items, nil, cons}
use dark_noc.Base.Text.{codes, all_codes, any_code, is_digit, is_lower, is_alnum, has_length, value}
use dark_noc.Fallible.{Attempt, returned, raised, raise_if, need, ◌>>=◌, ◌>>◌}
use dark_noc.Fleet.Payload.{is_among}
use dark_noc.Python.{Python}
use dark_noc.Realm.Names.{last_is}

-- A PluginRegistryError with its message, or another exception.
pub data RegistryError : Type 0 where
  registry_error : String → RegistryError
  not_a_number : RegistryError

abbrev pub Read : Type 0 → Type 0
Read A = Attempt RegistryError A

abbrev pub refuse : {A : Type 0} → List String → Read A
refuse parts = raised (registry_error (concat parts))

abbrev pub refuse_if : Bool → List String → Read (Unit {0})
refuse_if test parts = raise_if test (registry_error (concat parts))

-- the first character, then 1 to 63 that pass a test
abbrev pub is_key : (ℕ → Bool) → List ℕ → Bool
is_key test [] = false
is_key test (c ∷ cs) = (is_lower c || is_digit c) && all_codes test cs && has_length 1 63 cs

-- PLUGIN_ID_RE, INVENTORY_KEY_RE
unfoldable pub match_plugin_id : List ℕ → Bool
match_plugin_id = is_key (λ c. is_lower c || is_digit c || c == b'-')

unfoldable pub match_inventory_key : List ℕ → Bool
match_inventory_key = is_key (λ c. is_lower c || is_digit c || c == b'_')

abbrev pub is_prefix_code : ℕ → Bool
is_prefix_code c = is_alnum c || c == b'_' || c == b'.' || c == b'-'

-- the characters before the last
unfoldable pub all_but_last : List ℕ → List ℕ
all_but_last [] = []
all_but_last (c ∷ []) = []
all_but_last (c ∷ d ∷ cs) = c ∷ all_but_last (d ∷ cs)

-- SERVICE_PREFIX_RE
unfoldable pub match_service_prefix : List ℕ → Bool
match_service_prefix cs =
    last_is (λ c. c == b'@' || c == b'-') cs
    && all_codes is_prefix_code (all_but_last cs)
    && has_length 1 96 (all_but_last cs)

-- len(result) != len(set(result))
unfoldable pub has_twice : List String → Bool
has_twice [] = false
has_twice (s ∷ ss) = is_among s ss || has_twice ss

-- d.get(key, default)
abbrev pub get_or : Json → Option Json → Option Json
get_or d none = some d
get_or d (some v) = some v

module _ (py : Python) where
  abbrev pub valid_text : String → ℕ → String → Read String
  valid_text name maximum value =
      if str_eq value ""
        || ltb maximum (length (codes value))
        || any_code (λ c. ltb c 32) (codes value)
      then refuse (name ∷ " is invalid" ∷ [])
      else returned value

  -- _text
  unfoldable pub read_text : Option Json → String → ℕ → Read String
  read_text (some (str s)) name maximum = valid_text name maximum (py.strip s)
  read_text _ name maximum = refuse (name ∷ " must be a string" ∷ [])

  -- [_text(item, field, maximum=96) for item in value]
  unfoldable pub read_texts : String → Items → Read (List String)
  read_texts name nil = returned []
  read_texts name (cons v items) = do
    s ← read_text (some v) name 96
    ss ← read_texts name items
    returned (s ∷ ss)

  unfoldable pub count_items : Items → ℕ
  count_items nil = 0
  count_items (cons v items) = suc (count_items items)

  abbrev pub list_of : Option Json → Option Items
  list_of (some (arr items)) = some items
  list_of _ = none

  -- _string_list
  unfoldable pub string_list : Option Json → String → Read (List String)
  string_list value name = do
    items ← need (list_of value) (registry_error (str_append name " must be a non-empty list"))
    refuse_if (count_items items == 0 || ltb 64 (count_items items))
        (name ∷ " must be a non-empty list" ∷ [])
    result ← read_texts name items
    refuse_if (has_twice result) (name ∷ " cannot contain duplicates" ∷ [])
    returned result

  -- a text of a set of allowed ones
  unfoldable pub read_choice : List String → Option Json → String → ℕ → List String → Read String
  read_choice allowed value name maximum complaint = do
    s ← read_text value name maximum
    refuse_if (not (is_among s allowed)) complaint
    returned s

  -- a text that a regular expression matches
  unfoldable pub read_match : (List ℕ → Bool) → Option Json → String → ℕ → List String → Read String
  read_match matches value name maximum complaint = do
    s ← read_text value name maximum
    refuse_if (not (matches (codes s))) complaint
    returned s
