-- ===== src/Base/Tests.antt =====
-- Boolean tests on the native numbers, and the conditional.
use Prim.Native.Nat.{ℕ, zero, suc, ◌-◌, ◌≤◌, ◌<◌, compare, Ordering}
use mathlib.Core.Path.{◌≡◌, refl}
use mathlib.Core.Logic.{◌↔◌, ◌⊎◌, inl, inr}
use mathlib.Core.Bool.{Bool, true, false, ◌&&◌, ◌||◌}
use mathlib.Core.Option.{Option, none, some}
use Prim.Native.String.{String, ◌++◌ as str_append}
use mathlib.Core.List.{List, [], ◌∷◌}
use text.Mathlib.Text.{◌==◌ as str_eq}
use native.Mathlib.Omega.{arith}

-- These compute to `compare`, which `ground` and `grind` read with no lemma listed.
abbrev pub ltb : ℕ → ℕ → Bool
ltb a b = elim (compare a b) [ Ordering.lt ↦ true | _ ↦ false ]

abbrev pub leb : ℕ → ℕ → Bool
leb a b = elim (compare a b) [ Ordering.gt ↦ false | _ ↦ true ]

infix 50 ◌==◌
abbrev pub ◌==◌ : ℕ → ℕ → Bool
a == b = elim (compare a b) [ Ordering.eq ↦ true | _ ↦ false ]

infix 1 if◌then◌else◌
abbrev pub if◌then◌else◌ {ℓ} : {A : Type ℓ} → Bool → A → A → A
if true then x else y = x
if false then x else y = y

pub ltb→lt : (a b : ℕ) → ltb a b ≡ true → a < b
ltb→lt a b h = ground arith

pub leb→le : (a b : ℕ) → leb a b ≡ true → a ≤ b
leb→le a b h = ground arith

pub ==_iff : (a b : ℕ) → ((a == b) ≡ true) ↔ (a ≡ b)
==_iff a b = ground arith

-- To split on a computed value and keep the equation.
pub Bool-cases : (b : Bool) → (b ≡ true) ⊎ (b ≡ false)
Bool-cases true = inl refl
Bool-cases false = inr refl

pub Option-cases {ℓ} : {A : Type ℓ} (o : Option A) → (o ≡ none) ⊎ ((a : A) × (o ≡ some a))
Option-cases none = inl refl
Option-cases (some a) = inr (a, refl)

abbrev pub is_some {ℓ} : {A : Type ℓ} → Option A → Bool
is_some none = false
is_some (some a) = true

-- `not x` of a nullable number: NULL and 0 are both false in Python.
abbrev pub truthy : Option ℕ → Bool
truthy none = false
truthy (some zero) = false
truthy (some _) = true

-- s[:n] of Python text, which counts code points.
unfoldable pub clip : ℕ → String → String
clip zero s = ""
clip (suc n) String.[] = ""
clip (suc n) (String.◌∷◌ c s) = String.◌∷◌ c (clip n s)

unfoldable pub count_chars : String → ℕ
count_chars String.[] = 0
count_chars (String.◌∷◌ c s) = suc (count_chars s)

unfoldable pub skip_chars : ℕ → String → String
skip_chars zero s = s
skip_chars (suc n) String.[] = ""
skip_chars (suc n) (String.◌∷◌ c s) = skip_chars n s

-- s[-n:]
abbrev pub clip_end : ℕ → String → String
clip_end n s = skip_chars (count_chars s - n) s

-- the parts of an f-string
abbrev pub concat : List String → String
concat [] = ""
concat (s ∷ ss) = str_append s (concat ss)

-- value or default
abbrev pub text_else : Option String → String → String
text_else none d = d
text_else (some s) d = if str_eq s "" then d else s

abbrev pub filled : Option String → Bool
filled none = false
filled (some s) = if str_eq s "" then false else true

-- COALESCE(new, old)
abbrev pub coalesce {ℓ} : {A : Type ℓ} → Option A → Option A → Option A
coalesce none old = old
coalesce (some a) old = some a

-- col=? for a nullable column: NULL equals nothing.
abbrev pub is_ref : Option ℕ → ℕ → Bool
is_ref none n = false
is_ref (some m) n = m == n

pub and_left : (a b : Bool) → (a && b) ≡ true → a ≡ true
and_left true b e = refl
and_left false b e = e

pub and_right : (a b : Bool) → (a && b) ≡ true → b ≡ true
and_right true b e = e
and_right false b e = cc

-- What holds of both branches holds of the conditional.
pub if-both {ℓ κ} :
    {A : Type ℓ} (P : A → Type κ) (b : Bool) (x y : A) → P x → P y → P (if b then x else y)
if-both P true x y p q = p
if-both P false x y p q = q

pub or_left : (a b : Bool) → (a || b) ≡ false → a ≡ false
or_left true b e = e
or_left false b e = refl

pub or_right : (a b : Bool) → (a || b) ≡ false → b ≡ false
or_right true b e = cc
or_right false b e = e
