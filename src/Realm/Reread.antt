-- ===== src/Realm/Reread.antt =====
-- Reading the Hub's mappings again: by the agent, and by the Hub itself.
use dark_noc.Base.{
  leb, where_rows, any_row, All, ℕ, ◌+◌, String, ◌≡◌, refl, ap, ◌≢◌, Bool, true, ◌&&◌, List, [],
  ◌∷◌, ◌++◌, map, arith,
}
use dark_noc.Base.Json.{str, texts}
use dark_noc.Base.Text.{codes, all_codes, is_digit, decimal}
use dark_noc.Base.Numerals.{decimal-all_digits}
use dark_noc.Fallible.{returned, ◌>>=◌}
use dark_noc.Python.{Python}
use dark_noc.Realm.Accepted.{Differ, IsNew, print-filled}
use dark_noc.Realm.Agent.{read_agent_mappings, item_texts}
use dark_noc.Realm.Mappings.{Mapping, print, seen, read_mappings, stripped}
use dark_noc.Realm.RoundTrip.{IsMapping, codes-print, read_agent_mapping-print, read_mapping-print}

-- A list of mappings that both programs take, with the ports seen before it.
pub record Fits (ps bs : List ℕ) (ms : List Mapping) : Type 0 where
  pub in_range : All IsMapping ms
  pub publics : Differ (λ m. m.public_port) ms
  pub backbones : Differ (λ m. m.backbone_port) ms
  pub new_publics : IsNew (λ m. m.public_port) ps ms
  pub new_backbones : IsNew (λ m. m.backbone_port) bs ms

IsNew-extend :
    (f : Mapping → ℕ) (p : ℕ) (ports : List ℕ) (ms : List Mapping)
    → IsNew f ports ms
    → All (λ m. f m ≢ p) ms
    → IsNew f (p ∷ ports) ms
unfolding seen any_row
IsNew-extend f p ports [] h k = tt
IsNew-extend f p ports (m ∷ ms) h k = ground (arith, IsNew-extend f p ports ms h.1 k.1)

Fits-tail :
    (ps bs : List ℕ) (m : Mapping) (ms : List Mapping)
    → Fits ps bs (m ∷ ms)
    → Fits (m.public_port ∷ ps) (m.backbone_port ∷ bs) ms
Fits-tail ps bs m ms a = record {
  in_range = a.in_range.1;
  publics = a.publics.1;
  backbones = a.backbones.1;
  new_publics = IsNew-extend _ _ ps ms a.new_publics.1 a.publics.0;
  new_backbones = IsNew-extend _ _ bs ms a.new_backbones.1 a.backbones.0;
}

pub agent_reads :
    (ps bs : List ℕ) (ms : List Mapping)
    → Fits ps bs ms
    → read_agent_mappings ps bs (map print ms) ≡ returned ms
unfolding read_agent_mappings ◌>>=◌
agent_reads ps bs [] a = refl
agent_reads ps bs (m ∷ ms) a =
    rw
      (
        print-filled m a.in_range.0,
        read_agent_mapping-print m a.in_range.0,
        a.new_publics.0,
        a.new_backbones.0,
        agent_reads _ _ ms (Fits-tail ps bs m ms a),
      )
      refl

pub hub_reads :
    (base index : ℕ) (ps bs : List ℕ) (ms : List Mapping)
    → Fits ps bs ms
    → read_mappings base index ps bs (map print ms) ≡ returned (map print ms)
unfolding read_mappings ◌>>=◌
hub_reads base index ps bs [] a = refl
hub_reads base index ps bs (m ∷ ms) a =
    rw
      (
        read_mapping-print base index m a.in_range.0,
        a.new_publics.0,
        a.new_backbones.0,
        hub_reads base (index + 1) _ _ ms (Fits-tail ps bs m ms a),
      )
      refl

-- A visible character: no blank and no control character.
abbrev pub is_visible : ℕ → Bool
is_visible c = leb 33 c && leb c 126

-- What Python documents: str of a text is the text, and strip takes nothing off visible characters.
pub record IsPython (py : Python) : Type 0 where
  pub text_str : (s : String) → py.text (str s) ≡ s
  pub strip_visible : (s : String) → all_codes is_visible (codes s) ≡ true → py.strip s ≡ s

all_codes-append :
    (test : ℕ → Bool) (xs ys : List ℕ)
    → all_codes test (xs ++ ys) ≡ (all_codes test xs && all_codes test ys)
unfolding all_codes
all_codes-append test [] ys = refl
all_codes-append test (x ∷ xs) ys = ground (arith, all_codes-append test xs ys)

visible_digits : (cs : List ℕ) → all_codes is_digit cs ≡ true → all_codes is_visible cs ≡ true
unfolding all_codes
visible_digits [] h = refl
visible_digits (c ∷ cs) h = ground (arith, visible_digits cs)

visible_numeral : (n : ℕ) → all_codes is_visible (codes (decimal n)) ≡ true
visible_numeral n = visible_digits _ (decimal-all_digits n)

visible_print : (m : Mapping) → all_codes is_visible (codes (print m)) ≡ true
unfolding all_codes
visible_print m =
    let target = codes (decimal m.target_port) in
    let backbone = codes (decimal m.backbone_port) in
    rw (codes-print m, all_codes-append, visible_numeral)
      (rw (all_codes-append is_visible target (64 ∷ backbone), visible_numeral m.target_port)
        (visible_numeral m.backbone_port))

module _ (py : Python) (laws : IsPython py) where
  strip-print : (m : Mapping) → py.strip (print m) ≡ print m
  strip-print m = laws.strip_visible (print m) (visible_print m)

  pub item_texts-print : (ms : List Mapping) → item_texts py (texts (map print ms)) ≡ map print ms
  unfolding item_texts
  item_texts-print [] = refl
  item_texts-print (m ∷ ms) = simp (laws.text_str, strip-print, item_texts-print ms)

  pub stripped-print :
      (ms : List Mapping) → All IsMapping ms → stripped py (map print ms) ≡ map print ms
  unfolding stripped where_rows
  stripped-print [] h = refl
  stripped-print (m ∷ ms) h =
      rw (strip-print m, print-filled m h.0) (ap (λ x. print m ∷ x) (stripped-print ms h.1))
