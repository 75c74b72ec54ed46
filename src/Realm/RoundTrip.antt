-- ===== src/Realm/RoundTrip.antt =====
-- A mapping that the Hub prints, and the two regular expressions that read it back.
use mathlib.Core.List.{append-nil}
use dark_noc.Base.{ℕ, ◌≤◌, String, ◌≡◌, refl, true, some, List, [], ◌∷◌, ◌++◌, arith}
use dark_noc.Base.Text.{codes, decimal}
use dark_noc.Base.Numerals.{codes-append, stops, digits-decimal, value-decimal, length-decimal}
use dark_noc.Fallible.{returned, ◌>>=◌}
use dark_noc.Realm.Agent.{required_group, match_full_mapping, agent_port, read_agent_mapping}
use dark_noc.Realm.Mappings.{
  Mapping, group, optional_group, Groups, match_mapping, port, print, read_mapping,
}

-- Ports that `_port` lets through.
abbrev pub InRange : ℕ → Type 0
InRange p = (1 ≤ p) × (p ≤ 65535)

abbrev pub IsMapping : Mapping → Type 0
IsMapping m = InRange m.public_port × (InRange m.target_port × InRange m.backbone_port)

group-decimal :
    (n : ℕ) (rest : List ℕ)
    → n ≤ 65535
    → stops rest ≡ true
    → group (codes (decimal n) ++ rest) ≡ some (n, rest)
unfolding group
group-decimal n rest h k =
    let cut = digits-decimal n rest k in
    let len = length-decimal n (omega arith) in
    rw (cut.0, cut.1, value-decimal n) (ground (arith, len))

group-end : (n : ℕ) → n ≤ 65535 → group (codes (decimal n)) ≡ some (n, [])
group-end n h = rw (← append-nil (codes (decimal n))) (group-decimal n [] h refl)

pub codes-print :
    (m : Mapping)
    → codes (print m)
      ≡ codes (decimal m.public_port)
        ++ (b'>' ∷ (codes (decimal m.target_port) ++ (b'@' ∷ codes (decimal m.backbone_port))))
unfolding print
codes-print m = simp (codes-append) (unfold codes in refl)

record GroupsOf (m : Mapping) : Type 0 where
  at_public :
      (rest : List ℕ)
      → stops rest ≡ true
      → group (codes (decimal m.public_port) ++ rest) ≡ some (m.public_port, rest)
  at_target :
      (rest : List ℕ)
      → stops rest ≡ true
      → group (codes (decimal m.target_port) ++ rest) ≡ some (m.target_port, rest)
  at_backbone : group (codes (decimal m.backbone_port)) ≡ some (m.backbone_port, [])

groups_of : (m : Mapping) → IsMapping m → GroupsOf m
groups_of m (p, (t, b)) = record {
  at_public = λ rest k. group-decimal m.public_port rest p.1 k;
  at_target = λ rest k. group-decimal m.target_port rest t.1 k;
  at_backbone = group-end m.backbone_port b.1;
}

abbrev pub groups : Mapping → Groups
groups m = record {
  first = m.public_port;
  second = some m.target_port;
  third = some m.backbone_port;
}

pub match_mapping-print :
    (m : Mapping) → IsMapping m → match_mapping (codes (print m)) ≡ some (groups m)
unfolding match_mapping optional_group
match_mapping-print m h =
    let g = groups_of m h in
    rw (codes-print m, g.at_public _ refl, g.at_target _ refl, g.at_backbone) refl

match_full_mapping-print :
    (m : Mapping) → IsMapping m → match_full_mapping (codes (print m)) ≡ some (groups m)
unfolding match_full_mapping required_group
match_full_mapping-print m h =
    let g = groups_of m h in
    rw (codes-print m, g.at_public _ refl, g.at_target _ refl, g.at_backbone) refl

pub read_agent_mapping-print :
    (m : Mapping) → IsMapping m → read_agent_mapping (print m) ≡ returned m
unfolding read_agent_mapping agent_port ◌>>=◌
read_agent_mapping-print m h = rw (match_full_mapping-print m h) (ground arith)

pub read_mapping-print :
    (base index : ℕ) (m : Mapping) → IsMapping m → read_mapping base index (print m) ≡ returned m
unfolding read_mapping port ◌>>=◌
read_mapping-print base index m h = rw (match_mapping-print m h) (ground arith)

-- Every mapping that the Hub reads has ports in range.
pub read_mapping-IsMapping :
    (base index : ℕ) (raw : String) (m : Mapping)
    → read_mapping base index raw ≡ returned m
    → IsMapping m
unfolding read_mapping port ◌>>=◌
read_mapping-IsMapping base index raw m e = grind arith
