-- ===== src/Fallible.antt =====
-- The outcome of a function that does not touch the database: a value, or the exception it raises.
use mathlib.Core.Path.{subst}
use dark_noc.Base.{
  if◌then◌else◌, ◌≡◌, refl, sym, ap, ◌∙◌, ◌⊎◌, inl, inr, Bool, true, false, Option, none, some,
}

pub data Attempt {ℓ} (E : Type 0) (A : Type ℓ) : Type ℓ where
  returned : A → Attempt E A
  raised : E → Attempt E A

module _ {E : Type 0} where
  -- if test: raise error
  pub raise_if : Bool → E → Attempt E (Unit {0})
  raise_if true e = raised e
  raise_if false e = returned tt

  -- if value is None: raise error
  pub need : {A : Type 0} → Option A → E → Attempt E A
  need none e = raised e
  need (some a) e = returned a

module _ {E A B : Type 0} where
  infixl 10 ◌>>=◌ ◌>>◌
  -- Opening this opens the statements too.
  unfoldable pub ◌>>=◌ : Attempt E A → (A → Attempt E B) → Attempt E B
  unfolding raise_if need
  returned a >>= f = f a
  raised e >>= f = raised e

  abbrev pub ◌>>◌ : Attempt E A → Attempt E B → Attempt E B
  m >> n = m >>= λ _. n

value_or : {E A : Type 0} → A → Attempt E A → A
value_or d (returned a) = a
value_or d (raised e) = d

returned-injective :
    {E A : Type 0} (a b : A) (m : Attempt E A) → m ≡ returned a → m ≡ returned b → a ≡ b
unfolding value_or
returned-injective a b m e f = ap (value_or a) (sym e ∙ f)

-- Whatever the function returns has a property.
pub record Yields {E A : Type 0} (P : A → Type 0) (m : Attempt E A) : Type 0 where
  pub at : (a : A) → m ≡ returned a → P a

module _ {E A : Type 0} (P : A → Type 0) where
  pub Yields-returned : (a : A) → P a → Yields {E = E} {A = A} P (returned a)
  Yields-returned a p = record {
    at = λ b e. subst P (returned-injective a b (returned a) refl e) p;
  }

  pub Yields-raised : (e : E) → Yields {E = E} {A = A} P (raised e)
  Yields-raised e = record { at = λ b f. absurd (cc f) }

-- if test: raise error
pub Yields-raise_if :
    {E B : Type 0} (P : B → Type 0) (test : Bool) (e : E) (f : Unit {0} → Attempt E B)
    → (test ≡ false → Yields P (f tt))
    → Yields P (raise_if test e >>= f)
unfolding ◌>>=◌
Yields-raise_if P true e f k = Yields-raised P e
Yields-raise_if P false e f k = k refl

pub raise_if-false :
    {E : Type 0} (test : Bool) (e : E) → Yields (λ u. test ≡ false) (raise_if test e)
unfolding raise_if
raise_if-false true e = Yields-raised (λ u. true ≡ false) e
raise_if-false false e = Yields-returned (λ u. false ≡ false) tt refl

pub Yields-bind :
    {E A B : Type 0} (P : B → Type 0) (m : Attempt E A) (f : A → Attempt E B)
    → ((a : A) → m ≡ returned a → Yields P (f a))
    → Yields P (m >>= f)
unfolding ◌>>=◌
Yields-bind P (returned a) f k = k a refl
Yields-bind P (raised e) f k = Yields-raised P e

pub Yields-if :
    {E A : Type 0} (P : A → Type 0) (b : Bool) (x y : Attempt E A)
    → Yields P x
    → Yields P y
    → Yields P (if b then x else y)
Yields-if P true x y p q = p
Yields-if P false x y p q = q

pub Attempt-cases :
    {E A : Type 0} (m : Attempt E A) → ((e : E) × (m ≡ raised e)) ⊎ ((a : A) × (m ≡ returned a))
Attempt-cases (returned a) = inr (a, refl)
Attempt-cases (raised e) = inl (e, refl)
