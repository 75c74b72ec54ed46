-- ===== src/Realm/Listening.antt =====
-- What the agent accepts: mappings in range, with no port used twice, whatever the payload holds.
use dark_noc.Base.{
  ltb, ◌==◌, or_left, or_right, length, All, ℕ, String, ◌≡◌, refl, sym, ◌∙◌, ◌≢◌, false, ◌||◌,
  Option, none, some, List, [], ◌∷◌, map, arith, str_eq,
}
use dark_noc.Base.Json.{Dict}
use dark_noc.Fallible.{
  returned, Yields, Yields-returned, Yields-raised, Yields-raise_if, Yields-bind, Yields-if,
}
use dark_noc.Python.{Python}
use dark_noc.Realm.Accepted.{Differ, IsNew-cons}
use dark_noc.Realm.Agent.{agent_port, read_agent_mapping, read_agent_mappings, parse_mappings}
use dark_noc.Realm.Config.{Machine, Profile}
use dark_noc.Realm.Mappings.{Mapping, seen}
use dark_noc.Realm.Render.{RealmRole, edge_side, gateway_side, Endpoint, endpoint, endpoints}
use dark_noc.Realm.Reread.{Fits}
use dark_noc.Realm.RoundTrip.{InRange, IsMapping}

agent_port-InRange : (o : Option ℕ) → Yields InRange (agent_port o)
unfolding agent_port
agent_port-InRange none = Yields-raised _ _
agent_port-InRange (some p) = record { at = λ a e. ground arith }

read_agent_mapping-IsMapping : (text : String) → Yields IsMapping (read_agent_mapping text)
unfolding read_agent_mapping
read_agent_mapping-IsMapping text = Yields-bind _ _ _ (λ m e. Yields-bind _ _ _ (λ p ep.
    Yields-bind _ _ _ (λ t et. Yields-bind _ _ _ (λ b eb. Yields-returned _ _ (
      (agent_port-InRange (some m.first)).at p ep,
      ((agent_port-InRange m.second).at t et, (agent_port-InRange m.third).at b eb),
    )))))

Fits-cons :
    (m : Mapping) (ps bs : List ℕ) (ms : List Mapping)
    → IsMapping m
    → (seen m.public_port ps || seen m.backbone_port bs) ≡ false
    → Fits (m.public_port ∷ ps) (m.backbone_port ∷ bs) ms
    → Fits ps bs (m ∷ ms)
Fits-cons m ps bs ms h k a =
    let new_p = IsNew-cons _ _ ps ms a.new_publics in
    let new_b = IsNew-cons _ _ bs ms a.new_backbones in
    record {
      in_range = (h, a.in_range);
      publics = (new_p.1, a.publics);
      backbones = (new_b.1, a.backbones);
      new_publics = (or_left _ _ k, new_p.0);
      new_backbones = (or_right (seen m.public_port ps) _ k, new_b.0);
    }

read_agent_mappings-Fits :
    (ps bs : List ℕ) (items : List String) → Yields (Fits ps bs) (read_agent_mappings ps bs items)
unfolding read_agent_mappings
read_agent_mappings-Fits ps bs [] =
    Yields-returned _ _
      (record { in_range = tt; publics = tt; backbones = tt; new_publics = tt; new_backbones = tt })
read_agent_mappings-Fits ps bs (text ∷ items) =
    Yields-if _ (str_eq text "") _ _ (read_agent_mappings-Fits ps bs items) (
      Yields-bind _ _ _ (λ m em. Yields-raise_if _ _ _ _ (λ new. Yields-bind _ _ _ (λ rest er.
        Yields-returned _ _ (
          Fits-cons m ps bs rest ((read_agent_mapping-IsMapping text).at m em) new
            ((read_agent_mappings-Fits _ _ items).at rest er))))))

-- The mappings that the agent accepts are in range, no port is used twice, and there are 1 to 256.
pub record IsAccepted (ms : List Mapping) : Type 0 where
  pub fits : Fits [] [] ms
  pub some_mapping : (length ms == 0) ≡ false
  pub in_limit : ltb 256 (length ms) ≡ false

module _ (py : Python) where
  pub parse_mappings-IsAccepted : (payload : Dict) → Yields IsAccepted (parse_mappings py payload)
  unfolding parse_mappings
  parse_mappings-IsAccepted payload = Yields-bind _ _ _ (λ raw er. Yields-bind _ _ _ (λ ms em.
      Yields-raise_if _ _ _ _ (λ count. Yields-returned _ _ (record {
        fits = (read_agent_mappings-Fits [] [] raw).at ms em;
        some_mapping = or_left _ _ count;
        in_limit = or_right (length ms == 0) _ count;
      }))))

  -- Ports that are listed once each.
  abbrev pub Once : List Endpoint → Type 0
  Once [] = Unit
  Once (e ∷ es) = All (λ x. x.listen ≢ e.listen) es × Once es

  module _ (os : Machine) (gateway target_host wrapping : String) where
    others :
        (role : RealmRole) (ms : List Mapping) (p : ℕ) (f : Mapping → ℕ)
        → ((m : Mapping) → (endpoint py os role gateway target_host wrapping m).listen ≡ f m)
        → All (λ x. f x ≢ p) ms
        → All (λ x. x.listen ≢ p) (map (endpoint py os role gateway target_host wrapping) ms)
    others role [] p f same h = tt
    others role (m ∷ ms) p f same h = (λ e. h.0 (sym (same m) ∙ e), others role ms p f same h.1)

    map-Once :
        (role : RealmRole) (ms : List Mapping) (f : Mapping → ℕ)
        → ((m : Mapping) → (endpoint py os role gateway target_host wrapping m).listen ≡ f m)
        → Differ f ms
        → Once (map (endpoint py os role gateway target_host wrapping) ms)
    map-Once role [] f same h = tt
    map-Once role (m ∷ ms) f same h =
        (others role ms _ f same (rw (same m) h.0), map-Once role ms f same h.1)

    endpoint-Once :
        (role : RealmRole) (ms : List Mapping)
        → Fits [] [] ms
        → Once (map (endpoint py os role gateway target_host wrapping) ms)
    unfolding endpoint
    endpoint-Once edge_side ms a = map-Once edge_side ms (λ m. m.public_port) (λ m. refl) a.publics
    endpoint-Once gateway_side ms a =
        map-Once gateway_side ms (λ m. m.backbone_port) (λ m. refl) a.backbones

  written-Once :
      (os : Machine) (payload : Dict) (role : RealmRole)
      → Yields (λ written. Once written.1) (endpoints py os payload role)
  unfolding endpoints
  written-Once os payload role = Yields-bind _ _ _ (λ gateway eg. Yields-bind _ _ _ (λ target et.
      Yields-bind _ _ _ (λ ms em. Yields-bind _ _ _ (λ profile ep. Yields-bind _ _ _ (λ wrapping ew.
        Yields-returned _ _ (
          endpoint-Once os gateway target wrapping role ms
            ((parse_mappings-IsAccepted payload).at ms em).fits))))))

  -- Whatever the payload holds, if the agent makes a configuration of it, then the configuration
  -- listens on no port twice, on either side of the tunnel.
  pub endpoints-Once :
      (os : Machine) (payload : Dict) (role : RealmRole) (profile : Profile)
      (tables : List Endpoint)
      → endpoints py os payload role ≡ returned (profile, tables)
      → Once tables
  endpoints-Once os payload role profile tables e =
      (written-Once os payload role).at (profile, tables) e
