-- ===== src/Base/Text.antt =====
-- Texts by their code points, as the regular expressions of the program read them, and the decimal
-- numerals that `str` prints and `int` reads.
use Prim.Native.Char.{code}
use Prim.Native.Nat.{ℕ, zero, suc, ◌+◌, ◌-◌, ◌*◌, ◌/◌, ◌%◌}
use Prim.Native.String.{String, ◌++◌ as str_append}
use mathlib.Core.Bool.{Bool, true, false, ◌&&◌, ◌||◌}
use mathlib.Core.List.{List, [], ◌∷◌}
use dark_noc.Base.Rows.{length}
use dark_noc.Base.Tests.{leb, ltb, ◌==◌, if◌then◌else◌}

unfoldable pub codes : String → List ℕ
codes String.[] = []
codes (String.◌∷◌ c s) = code c ∷ codes s

-- list(text), and "x".join(texts)
unfoldable pub chars : String → List String
chars String.[] = []
chars (String.◌∷◌ c s) = String.◌∷◌ c "" ∷ chars s

unfoldable pub join : String → List String → String
join sep [] = ""
join sep (s ∷ []) = s
join sep (s ∷ t ∷ ss) = str_append s (str_append sep (join sep (t ∷ ss)))

-- all(test(char) for char in text)
unfoldable pub all_codes : (ℕ → Bool) → List ℕ → Bool
all_codes test [] = true
all_codes test (c ∷ cs) = test c && all_codes test cs

unfoldable pub any_code : (ℕ → Bool) → List ℕ → Bool
any_code test [] = false
any_code test (c ∷ cs) = test c || any_code test cs

abbrev pub is_digit : ℕ → Bool
is_digit c = leb 48 c && leb c 57

abbrev pub is_lower : ℕ → Bool
is_lower c = leb 97 c && leb c 122

abbrev pub is_upper : ℕ → Bool
is_upper c = leb 65 c && leb c 90

abbrev pub is_letter : ℕ → Bool
is_letter c = is_lower c || is_upper c

abbrev pub is_alnum : ℕ → Bool
is_alnum c = is_letter c || is_digit c

-- low <= len(codes) <= high
abbrev pub has_length : ℕ → ℕ → List ℕ → Bool
has_length low high cs = leb low (length cs) && leb (length cs) high

-- text.split(sep) for a separator of one character, given by its code point
unfoldable pub split_text : ℕ → String → List String
split_text sep String.[] = "" ∷ []
split_text sep (String.◌∷◌ c s) = elim (split_text sep s) [
  | [] ↦ String.◌∷◌ c "" ∷ []
  | part ∷ parts ↦ if code c == sep then "" ∷ part ∷ parts else String.◌∷◌ c part ∷ parts
]

unfoldable pub digit_text : ℕ → String
digit_text zero = "0"
digit_text (suc zero) = "1"
digit_text (suc (suc zero)) = "2"
digit_text (suc (suc (suc zero))) = "3"
digit_text (suc (suc (suc (suc zero)))) = "4"
digit_text (suc (suc (suc (suc (suc zero))))) = "5"
digit_text (suc (suc (suc (suc (suc (suc zero)))))) = "6"
digit_text (suc (suc (suc (suc (suc (suc (suc zero))))))) = "7"
digit_text (suc (suc (suc (suc (suc (suc (suc (suc zero)))))))) = "8"
digit_text (suc (suc (suc (suc (suc (suc (suc (suc (suc n))))))))) = "9"

-- str(n), with a round of fuel for each digit; `suc n` rounds are enough for n
unfoldable pub decimal_digits : ℕ → ℕ → String
decimal_digits zero n = ""
decimal_digits (suc f) n =
    let rest = decimal_digits f (n / 10) in
    if ltb n 10 then digit_text n else str_append rest (digit_text (n % 10))

unfoldable pub decimal : ℕ → String
unfolding decimal_digits digit_text
decimal n = decimal_digits (suc n) n

-- the run of digits at the start of a text, and what follows it
unfoldable pub digits : List ℕ → List ℕ
digits [] = []
digits (c ∷ cs) = if is_digit c then c ∷ digits cs else []

unfoldable pub after_digits : List ℕ → List ℕ
after_digits [] = []
after_digits (c ∷ cs) = if is_digit c then after_digits cs else c ∷ cs

-- int of a run of digits
unfoldable pub value : ℕ → List ℕ → ℕ
value n [] = n
value n (c ∷ cs) = value (10 * n + (c - 48)) cs
