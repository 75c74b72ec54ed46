-- ===== src/Base/Json.antt =====
-- The values that `json.dumps` writes into a TEXT column and `json.loads` reads back. A column
-- holds the value itself: the text between the two calls of the standard library is not modelled.
-- Fractions are left out: no operation of the model reads one.
use Prim.Native.Nat.{ℕ, zero}
use Prim.Native.String.{String}
use mathlib.Core.Bool.{Bool, true, false}
use mathlib.Core.Option.{Option, none, some}
use mathlib.Core.List.{List, [], ◌∷◌}
use text.Mathlib.Text.{◌==◌}
use dark_noc.Base.Tests.{if◌then◌else◌}

-- `neg n` is the integer -(n + 1).
mutual
  pub data Json : Type 0 where
    null : Json
    bool : Bool → Json
    num : ℕ → Json
    neg : ℕ → Json
    str : String → Json
    arr : Items → Json
    obj : Dict → Json

  pub data Items : Type 0 where
    nil : Items
    cons : Json → Items → Items

  pub data Dict : Type 0 where
    end : Dict
    field : String → Json → Dict → Dict

-- d.get(k)
unfoldable pub get : String → Dict → Option Json
get k end = none
get k (field j v d) = let rest = get k d in if j == k then some v else rest

-- d[k] = v
unfoldable pub put : String → Json → Dict → Dict
put k v end = field k v end
put k v (field j w d) = let rest = put k v d in if j == k then field k v d else field j w rest

-- d.pop(k, None)
unfoldable pub pop : String → Dict → Dict
pop k end = end
pop k (field j w d) = let rest = pop k d in if j == k then rest else field j w rest

-- {**d, **e}
unfoldable pub merge : Dict → Dict → Dict
merge d end = d
merge d (field k v e) = merge (put k v d) e

abbrev pub one {ℓ} : {A : Type ℓ} → Option A → (A → Json) → Json
one none f = null
one (some a) f = f a

abbrev pub nums : List ℕ → Items
nums [] = nil
nums (n ∷ ns) = cons (num n) (nums ns)

abbrev pub texts : List String → Items
texts [] = nil
texts (s ∷ ss) = cons (str s) (texts ss)

-- str(d.get(k) or default)
unfoldable pub text_or : String → Option Json → String
text_or d (some (str s)) = if s == "" then d else s
text_or d _ = d

-- int(d.get(k, 0) or 0)
unfoldable pub int_or_zero : Option Json → ℕ
int_or_zero (some (num n)) = n
int_or_zero _ = 0

-- bool(d.get(k))
unfoldable pub is_truthy : Option Json → Bool
is_truthy none = false
is_truthy (some null) = false
is_truthy (some (bool b)) = b
is_truthy (some (num zero)) = false
is_truthy (some (str s)) = if s == "" then false else true
is_truthy (some (arr nil)) = false
is_truthy (some (obj end)) = false
is_truthy (some _) = true
