-- ===== src/Realm/Agent.antt =====
-- The mappings that the agent reads from the payload of a Realm job: `parse_mappings` of
-- agent/realm_plugin.py, and its MAP_RE, `^([0-9]{1,5})>([0-9]{1,5})@([0-9]{1,5})$`.
use dark_noc.Base.{
  ltb, leb, ◌==◌, if◌then◌else◌, length, ℕ, String, str_append, ◌&&◌, ◌||◌, Option, none, some,
  List, [], ◌∷◌, map, str_eq,
}
use dark_noc.Base.Json.{Json, arr, Items, nil, cons, Dict, get, texts, is_truthy}
use dark_noc.Base.Text.{codes, split_text}
use dark_noc.Fallible.{Attempt, returned, raised, ◌>>=◌, ◌>>◌, raise_if, need}
use dark_noc.Job.Outcomes.{default}
use dark_noc.Python.{Python}
use dark_noc.Realm.Mappings.{Mapping, group, Groups, seen}

pub data AgentError : Type 0 where
  value_error : String → AgentError
  runtime_error : String → AgentError

abbrev pub Raises : Type 0 → Type 0
Raises A = Attempt AgentError A

-- c([0-9]{1,5})
unfoldable pub required_group : ℕ → List ℕ → Option (ℕ × List ℕ)
required_group mark [] = none
required_group mark (c ∷ cs) = if c == mark then group cs else none

abbrev pub third_group : ℕ → ℕ → Option (ℕ × List ℕ) → Option Groups
third_group p t (some (b, [])) = some (record { first = p; second = some t; third = some b })
third_group p t _ = none

abbrev pub second_group : ℕ → Option (ℕ × List ℕ) → Option Groups
second_group p none = none
second_group p (some (t, rest)) = third_group p t (required_group b'@' rest)

abbrev pub first_group : Option (ℕ × List ℕ) → Option Groups
first_group none = none
first_group (some (p, rest)) = second_group p (required_group b'>' rest)

-- MAP_RE.fullmatch
unfoldable pub match_full_mapping : List ℕ → Option Groups
match_full_mapping cs = first_group (group cs)

unfoldable pub agent_port : Option ℕ → Raises ℕ
agent_port none = raised (value_error "Invalid Realm mapping port")
agent_port (some p) =
    if leb 1 p && leb p 65535
    then returned p
    else raised (value_error "Realm mapping port is outside 1-65535")

unfoldable pub read_agent_mapping : String → Raises Mapping
read_agent_mapping text = do
  m ←
      need (match_full_mapping (codes text))
        (value_error (str_append "Invalid Realm mapping: " text))
  public_port ← agent_port (some m.first)
  target_port ← agent_port m.second
  backbone_port ← agent_port m.third
  returned (record {
    public_port = public_port;
    target_port = target_port;
    backbone_port = backbone_port;
  })

-- for item in raw, over the stripped texts of the items
unfoldable pub read_agent_mappings : List ℕ → List ℕ → List String → Raises (List Mapping)
read_agent_mappings public_seen backbone_seen [] = returned []
read_agent_mappings public_seen backbone_seen (text ∷ texts) =
    let skip = read_agent_mappings public_seen backbone_seen texts in
    if str_eq text "" then skip else (do
      m ← read_agent_mapping text
      raise_if (seen m.public_port public_seen || seen m.backbone_port backbone_seen)
          (value_error "Realm public and backbone ports must be unique")
      rest ←
          read_agent_mappings (m.public_port ∷ public_seen) (m.backbone_port ∷ backbone_seen) texts
      returned (m ∷ rest))

module _ (py : Python) where
  -- [str(item).strip() for item in raw]
  unfoldable pub item_texts : Items → List String
  item_texts nil = []
  item_texts (cons item items) = py.strip (py.text item) ∷ item_texts items

  abbrev pub text_of : Option Json → String
  text_of none = ""
  text_of (some v) = py.text v

  -- str(payload.get(key) or default)
  unfoldable pub text_at : String → String → Dict → String
  text_at key default payload =
      if is_truthy (get key payload) then text_of (get key payload) else default

  -- a list in place of the text that `maps` holds
  abbrev pub listed_mappings : Option Json → Raises (List String)
  listed_mappings (some (arr items)) = returned (item_texts items)
  listed_mappings _ = raised (value_error "Realm mappings must be a list")

  unfoldable pub raw_mappings : Dict → Raises (List String)
  raw_mappings payload =
      if is_truthy (get "port_mappings" payload)
      then listed_mappings (get "port_mappings" payload)
      else returned (map py.strip (split_text b',' (text_at "maps" "" payload)))

  unfoldable pub parse_mappings : Dict → Raises (List Mapping)
  parse_mappings payload = do
    raw ← raw_mappings payload
    result ← read_agent_mappings [] [] raw
    raise_if (length result == 0 || ltb 256 (length result))
        (value_error "Realm requires 1-256 mappings")
    returned result
