-- ===== src/Realm/Mappings.antt =====
-- The port mappings of hub/realm_support.py: `canonical_realm_mappings` and the regular expression
-- MAP_RE, `^([0-9]{1,5})(?:>([0-9]{1,5}))?(?:@([0-9]{1,5}))?$`.
use dark_noc.Base.{
  ltb, leb, ◌==◌, if◌then◌else◌, concat, length, where_rows, any_row, ℕ, ◌+◌, String, str_append,
  Bool, not, ◌&&◌, Option, none, some, List, [], ◌∷◌, map, str_eq,
}
use dark_noc.Base.Json.{texts}
use dark_noc.Base.Text.{codes, has_length, decimal, digits, after_digits, value}
use dark_noc.Fallible.{returned, raised, ◌>>=◌, ◌>>◌, raise_if, need}
use dark_noc.Store.Tx.{Error}
use dark_noc.Store.Lift.{Checked}
use dark_noc.Job.Outcomes.{default}
use dark_noc.Python.{Python}

pub record Mapping : Type 0 where
  pub public_port : ℕ
  pub target_port : ℕ
  pub backbone_port : ℕ

abbrev pub fail : {A : Type 0} → String → Checked A
fail detail = raised (Error.http 422 detail)

-- ([0-9]{1,5}): its value, and what follows it. No match of less than the whole run of digits
-- leads to a match of the whole text.
unfoldable pub group : List ℕ → Option (ℕ × List ℕ)
group cs = if has_length 1 5 (digits cs) then some (value 0 (digits cs), after_digits cs) else none

abbrev pub present : Option (ℕ × List ℕ) → Option (Option ℕ × List ℕ)
present none = none
present (some (n, rest)) = some (some n, rest)

-- (?:c([0-9]{1,5}))?
unfoldable pub optional_group : ℕ → List ℕ → Option (Option ℕ × List ℕ)
optional_group mark [] = some (none, [])
optional_group mark (c ∷ cs) = if c == mark then present (group cs) else some (none, c ∷ cs)

pub record Groups : Type 0 where
  pub first : ℕ
  pub second : Option ℕ
  pub third : Option ℕ

abbrev pub at_end : ℕ → Option ℕ → Option (Option ℕ × List ℕ) → Option Groups
at_end p t (some (b, [])) = some (record { first = p; second = t; third = b })
at_end p t _ = none

abbrev pub after_target : ℕ → Option (Option ℕ × List ℕ) → Option Groups
after_target p none = none
after_target p (some (t, rest)) = at_end p t (optional_group b'@' rest)

abbrev pub after_public : Option (ℕ × List ℕ) → Option Groups
after_public none = none
after_public (some (p, rest)) = after_target p (optional_group b'>' rest)

-- MAP_RE.fullmatch
unfoldable pub match_mapping : List ℕ → Option Groups
match_mapping cs = after_public (group cs)

unfoldable pub port : ℕ → String → Checked ℕ
port p label =
    if leb 1 p && leb p 65535
    then returned p
    else fail (concat ("Realm " ∷ label ∷ " port must be between 1 and 65535" ∷ []))

-- f"{public}>{target}@{backbone}"
unfoldable pub print : Mapping → String
print m =
    str_append (decimal m.public_port) (
      str_append ">"
        (str_append (decimal m.target_port) (str_append "@" (decimal m.backbone_port))))

abbrev pub or_port : Option ℕ → ℕ → ℕ
or_port none default = default
or_port (some p) default = p

-- port in seen
unfoldable pub seen : ℕ → List ℕ → Bool
seen p ports = any_row (λ q. q == p) ports

-- One round of the loop: the mapping of `raw`, the specification at position `index`.
unfoldable pub read_mapping : ℕ → ℕ → String → Checked Mapping
read_mapping base index raw = do
  m ← need (match_mapping (codes raw)) (
      Error.http 422 (
        concat (
          "Invalid Realm mapping '" ∷ raw ∷ "'. Use public, public>target or public>target@backbone"
          ∷ [])))
  public_port ← port m.first "public"
  target_port ← port (or_port m.second public_port) "target"
  backbone_port ← port (or_port m.third (base + index)) "backbone"
  returned (record {
    public_port = public_port;
    target_port = target_port;
    backbone_port = backbone_port;
  })

-- for index, raw in enumerate(raw_specs)
unfoldable pub read_mappings : ℕ → ℕ → List ℕ → List ℕ → List String → Checked (List String)
read_mappings base index public_seen backbone_seen [] = returned []
read_mappings base index public_seen backbone_seen (raw ∷ raws) = do
  m ← read_mapping base index raw
  raise_if (seen m.public_port public_seen)
      (Error.http 422 (str_append "Duplicate Realm public port: " (decimal m.public_port)))
  raise_if (seen m.backbone_port backbone_seen)
      (Error.http 422 (str_append "Duplicate Realm backbone port: " (decimal m.backbone_port)))
  rest ←
      read_mappings base (index + 1) (m.public_port ∷ public_seen) (m.backbone_port ∷ backbone_seen)
        raws
  returned (print m ∷ rest)

module _ (py : Python) where
  -- [text.strip() for text in texts if text.strip()]
  unfoldable pub stripped : List String → List String
  stripped texts = where_rows (λ s. not (str_eq s "")) (map py.strip texts)

  abbrev pub or_ports : List String → List ℕ → List String
  or_ports [] user_ports = map decimal user_ports
  or_ports specs user_ports = specs

  unfoldable pub canonical_realm_mappings : List ℕ → ℕ → List String → ℕ → Checked (List String)
  canonical_realm_mappings user_ports tunnel_port explicit maximum = do
    base ← port tunnel_port "backbone"
    let raw_specs = or_ports (stripped explicit) user_ports
    raise_if (length raw_specs == 0)
        (Error.http 422 "DARK Realm requires at least one port mapping")
    raise_if (ltb maximum (length raw_specs)) (
        Error.http 422 (
          concat (
            "DARK Realm supports at most "
            ∷ decimal maximum
            ∷ " mappings per logical tunnel"
            ∷ [])))
    read_mappings base 0 [] [] raw_specs
