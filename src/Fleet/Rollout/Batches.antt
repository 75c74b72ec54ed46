-- ===== src/Fleet/Rollout/Batches.antt =====
-- The batches of a rollout: every node once, in order, the canary first and alone, no batch over
-- the limit.
use mathlib.Core.Path.{subst}
use mathlib.Core.Option.{some-injective}
use dark_noc.Base.{
  if◌then◌else◌, Bool-cases, if-both, length, take, drop, first_row, insert_by, order_by,
  first_row-test, ℕ, zero, suc, ◌≤◌, ◌<◌, ◌≡◌, refl, ap, ◌∙◌, inl, inr, true, false, some, List, [],
  ◌∷◌, ◌++◌, arith,
}
use dark_noc.Fleet.Create.{Entry, rollout_order}
use dark_noc.Fleet.Rollout.{slices, batches}

abbrev pub flatten : {A : Type 0} → List (List A) → List A
flatten [] = []
flatten (xs ∷ xss) = xs ++ flatten xss

module _ {A : Type 0} where
  take-drop : (n : ℕ) (xs : List A) → take n xs ++ drop n xs ≡ xs
  take-drop zero xs = refl
  take-drop (suc n) [] = refl
  take-drop (suc n) (x ∷ xs) = ap (λ ys. x ∷ ys) (take-drop n xs)

  length-drop : (n : ℕ) (xs : List A) → length (drop n xs) ≤ length xs
  length-drop zero xs = omega arith
  length-drop (suc n) [] = omega arith
  length-drop (suc n) (x ∷ xs) = omega (arith, length-drop n xs)

  length-take : (n : ℕ) (xs : List A) → length (take n xs) ≤ n
  length-take zero xs = omega arith
  length-take (suc n) [] = omega arith
  length-take (suc n) (x ∷ xs) = omega (arith, length-take n xs)

  flatten-slices :
      (fuel n : ℕ) (xs : List A) → length xs ≤ fuel → flatten (slices fuel (suc n) xs) ≡ xs
  unfolding slices
  flatten-slices fuel n [] k = refl
  flatten-slices zero n (x ∷ xs) k = absurd (omega arith)
  flatten-slices (suc fuel) n (x ∷ xs) k =
      let rest = flatten-slices fuel n (drop n xs) (omega (arith, length-drop n xs)) in
      ap (λ ys. x ∷ ys) (ap (λ ys. take n xs ++ ys) rest ∙ take-drop n xs)

  abbrev pub AtMost : ℕ → List (List A) → Type 0
  AtMost n [] = Unit
  AtMost n (xs ∷ xss) = (length xs ≤ n) × AtMost n xss

  AtMost-slices : (fuel n : ℕ) (xs : List A) → AtMost (suc n) (slices fuel (suc n) xs)
  unfolding slices
  AtMost-slices fuel n [] = tt
  AtMost-slices zero n (x ∷ xs) = tt
  AtMost-slices (suc fuel) n (x ∷ xs) =
      (omega (arith, length-take n xs), AtMost-slices fuel n (drop n xs))

-- A rollout visits every entry exactly once and in its order: the batches put end to end are the
-- rollout, for every positive batch size.
pub batches-flatten :
    (size : ℕ) (rollout : List Entry) → 0 < size → flatten (batches size rollout) ≡ rollout
unfolding batches
batches-flatten zero rollout p = absurd (omega arith)
batches-flatten (suc n) [] p = refl
batches-flatten (suc n) (e ∷ rest) p =
    if-both (λ bs. flatten bs ≡ e ∷ rest) e.canary _ _
      (ap (λ ys. e ∷ ys) (flatten-slices (length rest) n rest (omega arith)))
      (flatten-slices (length (e ∷ rest)) n (e ∷ rest) (omega arith))

-- No batch of a rollout has more entries than the batch size, for every positive batch size.
pub batches-AtMost :
    (size : ℕ) (rollout : List Entry) → 0 < size → AtMost size (batches size rollout)
unfolding batches
batches-AtMost zero rollout p = absurd (omega arith)
batches-AtMost (suc n) [] p = tt
batches-AtMost (suc n) (e ∷ rest) p =
    if-both (AtMost (suc n)) e.canary _ _ (omega arith, AtMost-slices (length rest) n rest)
      (AtMost-slices (length (e ∷ rest)) n (e ∷ rest))

abbrev key : Entry → ℕ
key e = if e.canary then 0 else 1

Headed : Entry → List Entry → Type 0
Headed e es = (rest : List Entry) × (es ≡ e ∷ rest)

insert-canary : (e : Entry) (es : List Entry) → e.canary ≡ true → Headed e (insert_by key e es)
unfolding insert_by Headed
insert-canary e [] c = ([], refl)
insert-canary e (x ∷ xs) c = (x ∷ xs, ground arith)

insert-other :
    (e x : Entry) (es : List Entry)
    → e.canary ≡ true
    → x.canary ≡ false
    → Headed e es
    → Headed e (insert_by key x es)
unfolding insert_by Headed
insert-other e x es c d (rest, q) = (insert_by key x rest, ground arith)

order_by-canary :
    (e : Entry) (items : List Entry)
    → first_row (λ x. x.canary) items ≡ some e
    → Headed e (rollout_order items)
unfolding order_by first_row
order_by-canary e [] k = cc
order_by-canary e (x ∷ xs) k = elim (Bool-cases x.canary) [
  | inl c ↦
      let same : x ≡ e = ground (arith, some-injective x e) in
      subst (λ y. Headed y (insert_by key x (order_by key xs))) same (insert-canary x _ c)
  | inr c ↦
      let found_later : first_row (λ y. y.canary) xs ≡ some e = ground arith in
      insert-other e x _ (first_row-test (λ y. y.canary) xs e found_later) c
        (order_by-canary e xs found_later)
]

-- If the created items hold the canary, the first batch of the rollout is the canary alone,
-- whatever the batch size.
pub batches-canary :
    (size : ℕ) (items : List Entry) (e : Entry)
    → first_row (λ x. x.canary) items ≡ some e
    → (rest : List (List Entry)) × (batches size (rollout_order items) ≡ (e ∷ []) ∷ rest)
unfolding batches Headed
batches-canary size items e k =
    let canary : e.canary ≡ true = first_row-test (λ x. x.canary) items e k in
    let headed = order_by-canary e items k in
    (slices (length headed.0) size headed.0, ap (batches size) headed.1 ∙ ground arith)
