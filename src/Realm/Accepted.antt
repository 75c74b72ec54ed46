-- ===== src/Realm/Accepted.antt =====
-- What the Hub's mappings are worth to the agent: the list that `canonical_realm_mappings` returns
-- is read back as it was meant.
use mathlib.Core.Path.{subst}
use dark_noc.Base.{
  Bool-cases, length, any_row, All, ℕ, suc, ◌+◌, String, ◌≡◌, refl, sym, ap, ◌∙◌, ◌≢◌, inl, inr,
  false, some, List, [], ◌∷◌, map, arith, str_eq, eq_iff,
}
use dark_noc.Base.Text.{codes, digits}
use dark_noc.Fallible.{returned, ◌>>=◌, Attempt-cases}
use dark_noc.Realm.Mappings.{
  Mapping, group, match_mapping, print, seen, read_mapping, read_mappings,
}
use dark_noc.Realm.RoundTrip.{IsMapping, groups, match_mapping-print, read_mapping-IsMapping}

-- No two mappings have the same port.
abbrev pub Differ : (Mapping → ℕ) → List Mapping → Type 0
Differ f [] = Unit
Differ f (m ∷ ms) = All (λ x. f x ≢ f m) ms × Differ f ms

-- The port is not among those seen.
abbrev pub IsNew : (Mapping → ℕ) → List ℕ → List Mapping → Type 0
IsNew f ports = All (λ m. seen (f m) ports ≡ false)

pub IsNew-cons :
    (f : Mapping → ℕ) (p : ℕ) (ports : List ℕ) (ms : List Mapping)
    → IsNew f (p ∷ ports) ms
    → IsNew f ports ms × All (λ m. f m ≢ p) ms
unfolding seen any_row
IsNew-cons f p ports [] h = (tt, tt)
IsNew-cons f p ports (m ∷ ms) h = ground (arith, IsNew-cons f p ports ms h.1)

pub print-filled : (m : Mapping) → IsMapping m → str_eq (print m) "" ≡ false
print-filled m h = elim (Bool-cases (str_eq (print m) "")) [
  | inl e ↦
      let same : some (groups m) ≡ match_mapping (codes "") =
        sym (match_mapping-print m h)
        ∙ ap (λ s. match_mapping (codes s)) ((eq_iff (print m) "").0 e) in
      absurd (unfold match_mapping group digits codes in cc same)
  | inr e ↦ e
]

pub record Accepted (ps bs : List ℕ) (specs : List String) : Type 0 where
  pub mappings : List Mapping
  pub printed : map print mappings ≡ specs
  pub in_range : All IsMapping mappings
  pub publics : Differ (λ m. m.public_port) mappings
  pub backbones : Differ (λ m. m.backbone_port) mappings
  pub new_publics : IsNew (λ m. m.public_port) ps mappings
  pub new_backbones : IsNew (λ m. m.backbone_port) bs mappings

add_mapping :
    (m : Mapping) (ps bs : List ℕ) (specs : List String)
    → IsMapping m
    → seen m.public_port ps ≡ false
    → seen m.backbone_port bs ≡ false
    → Accepted (m.public_port ∷ ps) (m.backbone_port ∷ bs) specs
    → Accepted ps bs (print m ∷ specs)
add_mapping m ps bs specs h p b a =
    let new_p = IsNew-cons _ _ ps _ a.new_publics in
    let new_b = IsNew-cons _ _ bs _ a.new_backbones in
    record {
      mappings = m ∷ a.mappings;
      printed = ap (λ x. print m ∷ x) a.printed;
      in_range = (h, a.in_range);
      publics = (new_p.1, a.publics);
      backbones = (new_b.1, a.backbones);
      new_publics = (p, new_p.0);
      new_backbones = (b, new_b.0);
    }

-- One round of the loop, turned round: what has to hold for it to return.
record Round (base index : ℕ) (ps bs : List ℕ) (raw : String) (raws specs : List String)
    : Type 0 where
  mapping : Mapping
  rest : List String
  is_read : read_mapping base index raw ≡ returned mapping
  new_public : seen mapping.public_port ps ≡ false
  new_backbone : seen mapping.backbone_port bs ≡ false
  is_rest :
      read_mappings base (index + 1) (mapping.public_port ∷ ps) (mapping.backbone_port ∷ bs) raws
      ≡ returned rest
  is_whole : print mapping ∷ rest ≡ specs

round :
    (base index : ℕ) (ps bs : List ℕ) (raw : String) (raws specs : List String)
    → read_mappings base index ps bs (raw ∷ raws) ≡ returned specs
    → Round base index ps bs raw raws specs
unfolding read_mappings ◌>>=◌
round base index ps bs raw raws specs e = elim (Attempt-cases (read_mapping base index raw)) [
  | inl (x, f) ↦ absurd (cc (rw f at e))
  | inr (m, f) ↦ elim (Bool-cases (seen m.public_port ps)) [
    | inl old ↦ absurd (cc (rw (f, old) at e))
    | inr p ↦ elim (Bool-cases (seen m.backbone_port bs)) [
      | inl old ↦ absurd (cc (rw (f, p, old) at e))
      | inr b ↦
          elim (Attempt-cases
            (read_mappings base (index + 1) (m.public_port ∷ ps) (m.backbone_port ∷ bs) raws)) [
              | inl (x, g) ↦ absurd (cc (rw (f, p, b, g) at e))
              | inr (rest, g) ↦ record {
                mapping = m;
                rest = rest;
                is_read = f;
                new_public = p;
                new_backbone = b;
                is_rest = g;
                is_whole = cc (rw (f, p, b, g) at e);
              }
            ]
    ]
  ]
]

pub read_mappings-Accepted :
    (base index : ℕ) (ps bs : List ℕ) (raws specs : List String)
    → read_mappings base index ps bs raws ≡ returned specs
    → Accepted ps bs specs × (length specs ≡ length raws)
unfolding read_mappings
read_mappings-Accepted base index ps bs [] specs e =
    let same : [] ≡ specs = cc in
    subst (λ s. Accepted ps bs s × (length s ≡ 0)) same
      (
        record {
          mappings = [];
          printed = refl;
          in_range = tt;
          publics = tt;
          backbones = tt;
          new_publics = tt;
          new_backbones = tt;
        },
        refl,
      )
read_mappings-Accepted base index ps bs (raw ∷ raws) specs e =
    let r = round base index ps bs raw raws specs e in
    let ih = read_mappings-Accepted base (index + 1) _ _ raws r.rest r.is_rest in
    subst (λ s. Accepted ps bs s × (length s ≡ suc (length raws))) r.is_whole
      (
        add_mapping r.mapping ps bs r.rest (read_mapping-IsMapping base index raw _ r.is_read)
            r.new_public r.new_backbone ih.0,
        ap suc ih.1,
      )
