-- ===== src/Registry/Sorted.antt =====
-- The catalog in its order: what the sort keeps.
use mathlib.Core.Path.{subst}
use dark_noc.Base.{
  Bool-cases, All, ℕ, ◌≤◌, String, ◌≡◌, sym, ◌≢◌, inl, inr, true, false, Option, List, [], ◌∷◌, map,
  arith,
}
use dark_noc.Fallible.{returned, Yields, Yields-returned, Yields-raise_if, Yields-bind}
use dark_noc.Python.{Python}
use dark_noc.Registry.Catalog.{
  File, nothing_seen, Placed, is_before, insert_placed, sort_placed, load_plugin_catalog,
}
use dark_noc.Registry.Manifest.{Manifest}
use dark_noc.Registry.Unique.{Key, key_of, NoneTwice, load_files-Loaded, place-manifests}

-- In the order of `order`, from a number upwards.
abbrev pub InOrder : ℕ → List Placed → Type 0
InOrder n [] = Unit
InOrder n (p ∷ rest) = (n ≤ p.order) × InOrder p.order rest

before-order : (a b : Placed) → is_before a b ≡ true → a.order ≤ b.order
unfolding is_before
before-order a b h = ground arith

not_before-order : (a b : Placed) → is_before b a ≡ false → a.order ≤ b.order
unfolding is_before
not_before-order a b h = ground arith

insert-InOrder :
    (n : ℕ) (a : Placed) (bs : List Placed)
    → n ≤ a.order
    → InOrder n bs
    → InOrder n (insert_placed a bs)
unfolding insert_placed
insert-InOrder n a [] h k = (h, tt)
insert-InOrder n a (b ∷ bs) h k = elim (Bool-cases (is_before b a)) [
  | inl e ↦ rw e (k.0, insert-InOrder b.order a bs (before-order b a e) k.1)
  | inr e ↦ rw e (h, (not_before-order a b e, k.1))
]

sort-InOrder : (ps : List Placed) → InOrder 0 (sort_placed ps)
unfolding sort_placed
sort-InOrder [] = tt
sort-InOrder (p ∷ ps) = insert-InOrder 0 p (sort_placed ps) (omega arith) (sort-InOrder ps)

All-insert_placed :
    (P : Placed → Type 0) (a : Placed) (bs : List Placed)
    → P a
    → All P bs
    → All P (insert_placed a bs)
unfolding insert_placed
All-insert_placed P a [] h k = (h, tt)
All-insert_placed P a (b ∷ bs) h k = elim (Bool-cases (is_before b a)) [
  | inl e ↦ rw e (k.0, All-insert_placed P a bs h k.1)
  | inr e ↦ rw e (h, k)
]

All-sort_placed : (P : Placed → Type 0) (ps : List Placed) → All P ps → All P (sort_placed ps)
unfolding sort_placed
All-sort_placed P [] h = tt
All-sort_placed P (p ∷ ps) h = All-insert_placed P p (sort_placed ps) h.0 (All-sort_placed P ps h.1)

module _ (f : Placed → String) where
  insert-NoneTwice :
      (a : Placed) (bs : List Placed)
      → All (λ b. f b ≢ f a) bs
      → NoneTwice f bs
      → NoneTwice f (insert_placed a bs)
  unfolding insert_placed
  insert-NoneTwice a [] h k = (tt, tt)
  insert-NoneTwice a (b ∷ bs) h k = elim (Bool-cases (is_before b a)) [
    | inl e ↦ rw e (
      All-insert_placed (λ x. f x ≢ f b) a bs (λ same. h.0 (sym same)) k.0,
      insert-NoneTwice a bs h.1 k.1,
    )
    | inr e ↦ rw e (h, k)
  ]

  sort-NoneTwice : (ps : List Placed) → NoneTwice f ps → NoneTwice f (sort_placed ps)
  unfolding sort_placed
  sort-NoneTwice [] h = tt
  sort-NoneTwice (p ∷ ps) h =
      insert-NoneTwice p (sort_placed ps) (All-sort_placed (λ x. f x ≢ f p) ps h.0)
        (sort-NoneTwice ps h.1)

others-placed :
    (f : Manifest → String) (word : String) (ps : List Placed)
    → All (λ m. f m ≢ word) (map (λ (p : Placed). p.manifest) ps)
    → All (λ (p : Placed). f p.manifest ≢ word) ps
others-placed f word [] h = tt
others-placed f word (p ∷ ps) h = (h.0, others-placed f word ps h.1)

NoneTwice-placed :
    (f : Manifest → String) (ps : List Placed)
    → NoneTwice f (map (λ (p : Placed). p.manifest) ps)
    → NoneTwice (λ (p : Placed). f p.manifest) ps
NoneTwice-placed f [] h = tt
NoneTwice-placed f (p ∷ ps) h = (others-placed f _ ps h.0, NoneTwice-placed f ps h.1)

-- A catalog, each of whose four names stands once, in the order of `order`.
pub record IsCatalog (ps : List Placed) : Type 0 where
  pub unique : (k : Key) → NoneTwice (λ (p : Placed). key_of k p.manifest) ps
  pub in_order : InOrder 0 ps

module _ (py : Python) (directory : Option (List File)) where
  loads : Yields IsCatalog (load_plugin_catalog py directory)
  unfolding load_plugin_catalog
  loads = Yields-bind _ _ _ (λ files ef. Yields-raise_if _ _ _ _ (λ some_file.
      Yields-bind _ _ _ (λ ms em. Yields-bind _ _ _ (λ ps ep. Yields-returned _ _ (record {
        unique = λ k.
            sort-NoneTwice (λ p. key_of k p.manifest) ps
              (NoneTwice-placed (key_of k) ps (
                subst (NoneTwice (key_of k)) (sym ((place-manifests py ms).at ps ep))
                  ((load_files-Loaded py nothing_seen files).at ms em k).none_twice));
        in_order = sort-InOrder ps;
      })))))

  -- If the catalog loads, then no two plugins of it have the same id, the same method label, the
  -- same inventory key or the same service prefix, and they stand in the order of their `order`.
  pub load_plugin_catalog-IsCatalog :
      (catalog : List Placed)
      → load_plugin_catalog py directory ≡ returned catalog
      → IsCatalog catalog
  load_plugin_catalog-IsCatalog catalog e = loads.at catalog e
