-- ===== src/Registry/Unique.antt =====
-- A catalog that loads has no name twice and is in order.
use mathlib.Core.Path.{subst}
use dark_noc.Base.{
  or_left, or_right, any_row, All, String, ◌≡◌, refl, ap, ◌≢◌, false, List, [], ◌∷◌, map, str_eq,
  eq_iff,
}
use dark_noc.Fallible.{Yields, Yields-returned, Yields-raise_if, raise_if-false, Yields-bind}
use dark_noc.Fleet.Payload.{is_among}
use dark_noc.Python.{Python}
use dark_noc.Registry.Catalog.{File, Seen, see, refuse_seen, Placed, load_files, place}
use dark_noc.Registry.Manifest.{Manifest}

-- The texts that name a plugin.
pub data Key : Type 0 where
  by_id by_method by_inventory_key by_service_prefix : Key

abbrev pub key_of : Key → Manifest → String
key_of by_id m = m.plugin_id
key_of by_method m = m.ui.method
key_of by_inventory_key m = m.ui.inventory_key
key_of by_service_prefix m = m.runtime.service_prefix

pub seen_of : Key → Seen → List String
seen_of by_id s = s.ids
seen_of by_method s = s.methods
seen_of by_inventory_key s = s.inventory_keys
seen_of by_service_prefix s = s.service_prefixes

-- No two manifests have the same text there.
abbrev pub NoneTwice : {A : Type 0} → (A → String) → List A → Type 0
NoneTwice f [] = Unit
NoneTwice f (a ∷ rest) = All (λ b. f b ≢ f a) rest × NoneTwice f rest

seen_of-see : (k : Key) (m : Manifest) (s : Seen) → seen_of k (see m s) ≡ key_of k m ∷ seen_of k s
unfolding seen_of
seen_of-see by_id m s = refl
seen_of-see by_method m s = refl
seen_of-see by_inventory_key m s = refl
seen_of-see by_service_prefix m s = refl

refuse_seen-new :
    (m : Manifest) (before : Seen)
    → Yields
        (λ u. (k : Key) → is_among (key_of k m) (seen_of k before) ≡ false)
        (refuse_seen m before)
unfolding refuse_seen seen_of
refuse_seen-new m before = Yields-raise_if _ _ _ _ (λ a. Yields-raise_if _ _ _ _ (λ b.
    Yields-raise_if _ _ _ _ (λ c. record {
      at = λ u e k. elim k as (λ k. is_among (key_of k m) (seen_of k before) ≡ false) [
        | by_id ↦ a
        | by_method ↦ b
        | by_inventory_key ↦ c
        | by_service_prefix ↦ (raise_if-false _ _).at u e
      ];
    })))

-- What the loop has loaded: nothing that it had seen, and nothing twice.
pub record Loaded (k : Key) (before : Seen) (ms : List Manifest) : Type 0 where
  pub unseen : All (λ m. is_among (key_of k m) (seen_of k before) ≡ false) ms
  pub none_twice : NoneTwice (key_of k) ms

unseen-split :
    (k : Key) (word : String) (words : List String) (ms : List Manifest)
    → All (λ m. is_among (key_of k m) (word ∷ words) ≡ false) ms
    → All (λ m. is_among (key_of k m) words ≡ false) ms × All (λ m. key_of k m ≢ word) ms
unfolding any_row
unseen-split k word words [] h = (tt, tt)
unseen-split k word words (m ∷ ms) h =
    let rest = unseen-split k word words ms h.1 in
    let here = or_left (str_eq (key_of k m) word) _ h.0 in
    (
      (or_right (str_eq (key_of k m) word) _ h.0, rest.0),
      (λ same. absurd (cc (here, (eq_iff (key_of k m) word).1 same)), rest.1),
    )

module _ (py : Python) where
  pub load_files-Loaded :
      (before : Seen) (files : List File)
      → Yields (λ ms. (k : Key) → Loaded k before ms) (load_files py before files)
  unfolding load_files
  load_files-Loaded before [] = Yields-returned _ _ (λ k. record { unseen = tt; none_twice = tt })
  load_files-Loaded before (file ∷ files) = Yields-bind _ _ _ (λ raw er. Yields-bind _ _ _ (λ m em.
      Yields-bind _ _ _ (λ u eu. Yields-bind _ _ _ (λ rest el. Yields-returned _ _ (λ k.
        let later = (load_files-Loaded (see m before) files).at rest el k in
        let split = unseen-split k (key_of k m) (seen_of k before) rest (
          subst (λ words. All (λ x. is_among (key_of k x) words ≡ false) rest)
            (seen_of-see k m before) later.unseen) in
        record {
          unseen = ((refuse_seen-new m before).at u eu k, split.0);
          none_twice = (split.1, later.none_twice);
        })))))

  pub place-manifests :
      (ms : List Manifest) → Yields (λ ps. map (λ (p : Placed). p.manifest) ps ≡ ms) (place py ms)
  unfolding place
  place-manifests [] = Yields-returned _ _ refl
  place-manifests (m ∷ ms) = Yields-bind _ _ _ (λ o eo.
      Yields-bind _ _ _
        (λ rest er. Yields-returned _ _ (ap (λ x. m ∷ x) ((place-manifests ms).at rest er))))
