-- ===== src/Base/Numerals.antt =====
-- Reading back a decimal numeral.
use Prim.Native.Char.{code}
use Prim.Native.Nat.{ℕ, zero, suc, ◌+◌, ◌-◌, ◌*◌, ◌/◌, ◌%◌, ◌≤◌, ◌<◌}
use Prim.Native.String.{String, ◌++◌ as str_append}
use Prim.Native.String.append
use mathlib.Core.Path.{◌≡◌, refl, ap}
use mathlib.Core.Logic.{inl, inr}
use mathlib.Core.Bool.{Bool, true, not}
use mathlib.Core.List.{List, [], ◌∷◌, ◌++◌}
use native.Mathlib.Omega.{arith}
use dark_noc.Base.Rows.{length}
use dark_noc.Base.Tests.{ltb, Bool-cases}
use dark_noc.Base.Text.{
  codes, all_codes, is_digit, digit_text, decimal_digits, decimal, digits, after_digits, value,
}

pub codes-append : (s t : String) → codes (str_append s t) ≡ codes s ++ codes t
unfolding codes
codes-append String.[] t = rw (append.nil t) refl
codes-append (String.◌∷◌ c s) t = rw (append.cons c s t) (ap (λ x. code c ∷ x) (codes-append s t))

codes-digit_text : (d : ℕ) → d < 10 → codes (digit_text d) ≡ (48 + d) ∷ []
unfolding codes digit_text
codes-digit_text zero h = refl
codes-digit_text (suc zero) h = refl
codes-digit_text (suc (suc zero)) h = refl
codes-digit_text (suc (suc (suc zero))) h = refl
codes-digit_text (suc (suc (suc (suc zero)))) h = refl
codes-digit_text (suc (suc (suc (suc (suc zero))))) h = refl
codes-digit_text (suc (suc (suc (suc (suc (suc zero)))))) h = refl
codes-digit_text (suc (suc (suc (suc (suc (suc (suc zero))))))) h = refl
codes-digit_text (suc (suc (suc (suc (suc (suc (suc (suc zero)))))))) h = refl
codes-digit_text (suc (suc (suc (suc (suc (suc (suc (suc (suc n))))))))) h =
    let e : n ≡ 0 = omega arith in rw e refl

-- one round: the digits of n / 10, and the last digit
numeral : ℕ → ℕ → List ℕ
numeral f n = codes (decimal_digits f n)

numeral-small : (f n : ℕ) → n < 10 → numeral (suc f) n ≡ (48 + n) ∷ []
unfolding numeral decimal_digits
numeral-small f n h = elim (Bool-cases (ltb n 10)) [
  | inl e ↦ rw e (codes-digit_text n h)
  | inr e ↦ absurd (ground arith)
]

numeral-large : (f n : ℕ) → 10 ≤ n → numeral (suc f) n ≡ numeral f (n / 10) ++ (48 + n % 10) ∷ []
unfolding numeral decimal_digits
numeral-large f n h = elim (Bool-cases (ltb n 10)) [
  | inl e ↦ absurd (ground arith)
  | inr e ↦
      rw
        (
          e,
          codes-append (decimal_digits f (n / 10)) (digit_text (n % 10)),
          codes-digit_text (n % 10) (omega arith),
        )
        refl
]

all_codes-snoc :
    (test : ℕ → Bool) (cs : List ℕ) (c : ℕ)
    → all_codes test cs ≡ true
    → test c ≡ true
    → all_codes test (cs ++ c ∷ []) ≡ true
unfolding all_codes
all_codes-snoc test [] c h k = ground arith
all_codes-snoc test (d ∷ cs) c h k = ground (arith, all_codes-snoc test cs c)

value-snoc : (m : ℕ) (cs : List ℕ) (c : ℕ) → value m (cs ++ c ∷ []) ≡ 10 * value m cs + (c - 48)
unfolding value
value-snoc m [] c = refl
value-snoc m (d ∷ cs) c = value-snoc (10 * m + (d - 48)) cs c

length-snoc : (cs : List ℕ) (c : ℕ) → length (cs ++ c ∷ []) ≡ suc (length cs)
length-snoc [] c = refl
length-snoc (d ∷ cs) c = ap suc (length-snoc cs c)

numeral-all_digits : (f n : ℕ) → all_codes is_digit (numeral f n) ≡ true
unfolding all_codes
numeral-all_digits zero n = unfold numeral decimal_digits codes in refl
numeral-all_digits (suc f) n = elim (Bool-cases (ltb n 10)) [
  | inl e ↦ rw (numeral-small f n (ground arith)) (ground arith)
  | inr e ↦ rw (numeral-large f n (ground arith)) (
      all_codes-snoc is_digit (numeral f (n / 10)) (48 + n % 10) (numeral-all_digits f (n / 10))
        (ground arith))
]

value-numeral : (f n : ℕ) → n < f → value 0 (numeral f n) ≡ n
unfolding value
value-numeral zero n h = elim h [ ]
value-numeral (suc f) n h = elim (Bool-cases (ltb n 10)) [
  | inl e ↦ rw (numeral-small f n (ground arith)) (omega arith)
  | inr e ↦
      rw (numeral-large f n (ground arith), value-snoc 0 (numeral f (n / 10)) (48 + n % 10))
        (let ih = value-numeral f (n / 10) (ground arith) in omega arith)
]

abbrev pow10 : ℕ → ℕ
pow10 zero = 1
pow10 (suc k) = 10 * pow10 k

length-numeral :
    (k f n : ℕ)
    → n < pow10 (suc k)
    → (1 ≤ length (numeral (suc f) n)) × (length (numeral (suc f) n) ≤ suc k)
length-numeral zero f n h = rw (numeral-small f n (omega arith)) (omega arith)
length-numeral (suc k) zero n h = elim (Bool-cases (ltb n 10)) [
  | inl e ↦ rw (numeral-small zero n (ground arith)) (omega arith, omega arith)
  | inr e ↦
      rw (numeral-large zero n (ground arith))
        (unfold numeral decimal_digits codes in (omega arith, omega arith))
]
length-numeral (suc k) (suc f) n h = elim (Bool-cases (ltb n 10)) [
  | inl e ↦ rw (numeral-small (suc f) n (ground arith)) (omega arith)
  | inr e ↦
      rw
        (
          numeral-large (suc f) n (ground arith),
          length-snoc (numeral (suc f) (n / 10)) (48 + n % 10),
        )
        (let ih = length-numeral k f (n / 10) (omega arith) in (omega arith, omega arith))
]

-- the text does not begin with a digit
abbrev pub stops : List ℕ → Bool
stops [] = true
stops (c ∷ cs) = not (is_digit c)

digits-append :
    (ds rest : List ℕ)
    → all_codes is_digit ds ≡ true
    → stops rest ≡ true
    → (digits (ds ++ rest) ≡ ds) × (after_digits (ds ++ rest) ≡ rest)
unfolding digits after_digits all_codes
digits-append [] [] h k = (refl, refl)
digits-append [] (c ∷ rest) h k = ground arith
digits-append (d ∷ ds) rest h k = ground (arith, digits-append ds rest)

-- The run of digits before `rest` is the numeral itself.
pub digits-decimal :
    (n : ℕ) (rest : List ℕ)
    → stops rest ≡ true
    → (digits (codes (decimal n) ++ rest) ≡ codes (decimal n))
      × (after_digits (codes (decimal n) ++ rest) ≡ rest)
unfolding decimal
digits-decimal n rest h = unfold numeral in digits-append _ rest (numeral-all_digits (suc n) n) h

pub value-decimal : (n : ℕ) → value 0 (codes (decimal n)) ≡ n
unfolding decimal
value-decimal n = unfold numeral in value-numeral (suc n) n (omega arith)

-- A number below 100000 has one to five digits.
pub length-decimal :
    (n : ℕ) → n < 100000 → (1 ≤ length (codes (decimal n))) × (length (codes (decimal n)) ≤ 5)
unfolding decimal
length-decimal n h = unfold numeral in length-numeral 4 n n (omega arith)

pub decimal-all_digits : (n : ℕ) → all_codes is_digit (codes (decimal n)) ≡ true
unfolding decimal
decimal-all_digits n = unfold numeral in numeral-all_digits (suc n) n
