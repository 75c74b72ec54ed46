-- ===== src/Realm/Contract.antt =====
-- The contract between the Hub and the agent on a Realm tunnel's mappings.
use mathlib.Core.Path.{subst}
use dark_noc.Base.{
  ltb, leb, ◌==◌, length, any_row, All, ℕ, suc, ◌≤◌, String, ◌≡◌, refl, sym, ap, ◌∙◌, Bool, true,
  false, ◌&&◌, Option, none, some, List, [], ◌∷◌, map, arith,
}
use dark_noc.Base.Json.{arr, Dict, get, put, merge, texts, is_truthy}
use dark_noc.Fallible.{returned, ◌>>=◌, Yields, Yields-returned, Yields-raise_if, Yields-bind}
use dark_noc.Certificates.{CertificateSettings}
use dark_noc.Python.{Python}
use dark_noc.Realm.Accepted.{Differ, IsNew, Accepted, read_mappings-Accepted}
use dark_noc.Realm.Agent.{raw_mappings, parse_mappings}
use dark_noc.Realm.Mappings.{
  Mapping, port, print, seen, stripped, or_ports, canonical_realm_mappings,
}
use dark_noc.Realm.Prepare.{Prepared, prepared_settings, prepare_parts, prepare_realm_settings}
use dark_noc.Realm.Reread.{Fits, agent_reads, hub_reads, IsPython, item_texts-print, stripped-print}
use dark_noc.Realm.RoundTrip.{InRange, IsMapping}
use dark_noc.Realm.Settings.{certified, texts_of, mappings_of}

-- What a list of specifications means: mappings in range, with no port used twice.
pub record Means (specs : List String) (ms : List Mapping) : Type 0 where
  pub printed : map print ms ≡ specs
  pub in_range : All IsMapping ms
  pub publics : Differ (λ m. m.public_port) ms
  pub backbones : Differ (λ m. m.backbone_port) ms
  pub count : (1 ≤ length ms) × (length ms ≤ 256)

length-print : (ms : List Mapping) → length (map print ms) ≡ length ms
length-print [] = refl
length-print (m ∷ ms) = ap suc (length-print ms)

Means-Fits : {specs : List String} (ms : List Mapping) → Means specs ms → Fits [] [] ms
unfolding seen any_row
Means-Fits ms a = record {
  in_range = a.in_range;
  publics = a.publics;
  backbones = a.backbones;
  new_publics = all_new (λ m. m.public_port) ms;
  new_backbones = all_new (λ m. m.backbone_port) ms;
}
  where
    all_new : (f : Mapping → ℕ) (xs : List Mapping) → IsNew f [] xs
    all_new f [] = tt
    all_new f (x ∷ xs) = (refl, all_new f xs)

Accepted-Means :
    {specs : List String}
    → Accepted [] [] specs
    → (1 ≤ length specs) × (length specs ≤ 256)
    → (ms : List Mapping) × Means specs ms
Accepted-Means {specs} a n = (
  a.mappings,
  record {
    printed = a.printed;
    in_range = a.in_range;
    publics = a.publics;
    backbones = a.backbones;
    count =
        let e : length a.mappings ≡ length specs =
          sym (length-print a.mappings) ∙ ap length a.printed in
        (omega (arith, e), omega (arith, e));
  },
)

within :
    (n k maximum : ℕ)
    → (n == 0) ≡ false
    → ltb maximum n ≡ false
    → k ≡ n
    → maximum ≤ 256
    → (1 ≤ k) × (k ≤ 256)
within n k maximum p q e h = ground arith

module _ (py : Python) where
  -- `canonical_realm_mappings` returns specifications that mean mappings in range with no port used
  -- twice, at most as many as the maximum.
  pub canonical-Means :
      (user_ports : List ℕ) (tunnel_port : ℕ) (explicit : List String) (maximum : ℕ)
      → maximum ≤ 256
      → Yields
          (λ specs. (ms : List Mapping) × Means specs ms)
          (canonical_realm_mappings py user_ports tunnel_port explicit maximum)
  unfolding canonical_realm_mappings
  canonical-Means user_ports tunnel_port explicit maximum h =
      let raw = or_ports py (stripped py explicit) user_ports in
      Yields-bind _ _ _ (λ base at. Yields-raise_if _ _ _ _ (λ some_raw.
        Yields-raise_if _ _ _ _ (λ few. record {
          at = λ specs e.
              let a = read_mappings-Accepted base 0 [] [] raw specs e in
              Accepted-Means a.0 (within _ _ _ some_raw few a.1 h);
        })))

mappings_of-Means :
    (py : Python) (values : Dict)
    → {specs : List String} → mappings_of py values ≡ returned specs
    → (ms : List Mapping) × Means specs ms
unfolding mappings_of
mappings_of-Means py values {specs} e = (whole py values).at specs e
  where
    whole :
        (py : Python) (values : Dict)
        → Yields (λ specs. (ms : List Mapping) × Means specs ms) (mappings_of py values)
    whole py values = Yields-bind _ _ _ (λ items ei. Yields-bind _ _ _ (λ ports ep.
        Yields-bind _ _ _ (λ tunnel et. Yields-bind _ _ _ (λ explicit ee.
          canonical-Means py ports tunnel (texts_of py explicit) 256 (omega arith)))))

-- The agent reads the list that means some mappings as those mappings.
pub parse_mappings-Means :
    (py : Python) (payload : Dict) (specs : List String) (ms : List Mapping)
    → IsPython py
    → get "port_mappings" payload ≡ some (arr (texts specs))
    → Means specs ms
    → parse_mappings py payload ≡ returned ms
unfolding parse_mappings raw_mappings is_truthy ◌>>=◌
parse_mappings-Means py payload specs [] laws e a = absurd (omega (arith, a.count.0))
parse_mappings-Means py payload specs (m ∷ ms) laws e a =
    let e' = subst (λ s. get "port_mappings" payload ≡ some (arr (texts s))) (sym a.printed) e in
    rw (e', item_texts-print py laws (m ∷ ms), agent_reads [] [] (m ∷ ms) (Means-Fits (m ∷ ms) a))
      (ground (arith, a.count.1))

-- The mappings stand in the settings where the agent looks for them.
get-certified :
    (py : Python) (values : Dict) (p : Prepared) (certificate : Option CertificateSettings)
    → get "port_mappings" (certified certificate (prepared_settings py values p))
      ≡ some (arr (texts p.mappings))
unfolding prepared_settings get merge put
get-certified py values p none = refl
get-certified py values p (some c) = refl

module _ (py : Python) (ip_address : String → Option String) (time : ℕ) (values : Dict)
    (gateway_host : String) (certificate : Option CertificateSettings) (pair_mode : Bool) where
  prepare_parts-mappings :
      Yields
        (λ p. mappings_of py values ≡ returned p.mappings)
        (prepare_parts py ip_address time values gateway_host certificate pair_mode)
  unfolding prepare_parts
  prepare_parts-mappings = Yields-raise_if _ _ _ _ (λ t. Yields-raise_if _ _ _ _ (λ f.
      Yields-bind _ _ _ (λ mappings e. Yields-bind _ _ _ (λ g eg. Yields-bind _ _ _ (λ h eh.
        Yields-raise_if _ _ _ _ (λ alpn. Yields-bind _ _ _ (λ tls et. Yields-bind _ _ _ (λ ws ew.
          Yields-bind _ _ _
            (λ port ep. Yields-bind _ _ _ (λ created ec. Yields-returned _ _ e))))))))))

  prepared_mappings :
      IsPython py
      → Yields
          (λ settings.
            (specs : List String) × (ms : List Mapping) × (get "port_mappings" settings
              ≡ some (arr (texts specs)))
            × Means specs ms
            × (parse_mappings py settings ≡ returned ms))
          (prepare_realm_settings py ip_address time values gateway_host certificate pair_mode)
  unfolding prepare_realm_settings
  prepared_mappings laws = Yields-bind _ _ _ (λ p ep. Yields-returned _ _ (
      let found = get-certified py values p certificate in
      let (ms, a) = mappings_of-Means py values (prepare_parts-mappings.at p ep) in
      (p.mappings, ms, found, a, parse_mappings-Means py _ p.mappings ms laws found a)))

  -- If the Hub prepares settings, they hold the texts of 1 to 256 mappings, each with three ports
  -- from 1 to 65535, no public port twice and no backbone port twice, and the agent's
  -- `parse_mappings` returns exactly these mappings for the settings.
  pub parse_mappings-prepare :
      IsPython py
      → (settings : Dict)
      → prepare_realm_settings py ip_address time values gateway_host certificate pair_mode
        ≡ returned settings
      → (specs : List String) × (ms : List Mapping) × (get "port_mappings" settings
          ≡ some (arr (texts specs)))
        × Means specs ms
        × (parse_mappings py settings ≡ returned ms)
  parse_mappings-prepare laws settings e = (prepared_mappings laws).at settings e

not_above : (maximum n : ℕ) → n ≤ maximum → ltb maximum n ≡ false
not_above maximum n h = ground arith

again_printed :
    (py : Python) (user_ports : List ℕ) (tunnel_port : ℕ) (m : Mapping) (ms : List Mapping)
    (maximum : ℕ)
    → IsPython py
    → InRange tunnel_port
    → ltb maximum (length (map print (m ∷ ms))) ≡ false
    → All IsMapping (m ∷ ms)
    → Fits [] [] (m ∷ ms)
    → canonical_realm_mappings py user_ports tunnel_port (map print (m ∷ ms)) maximum
      ≡ returned (map print (m ∷ ms))
unfolding canonical_realm_mappings port ◌>>=◌
again_printed py user_ports tunnel_port m ms maximum laws t n h fits =
    let valid : (leb 1 tunnel_port && leb tunnel_port 65535) ≡ true = ground arith in
    let filled : (suc (length (map print ms)) == 0) ≡ false = ground arith in
    rw (valid, stripped-print py laws (m ∷ ms) h, n, filled)
      (hub_reads tunnel_port 0 [] [] (m ∷ ms) fits)

-- Specifications that the Hub has printed are returned as they are when they are checked again, with
-- any user ports, valid backbone port and maximum that is not below their number.
pub canonical-again :
    (py : Python) (user_ports : List ℕ) (tunnel_port : ℕ) (specs : List String) (ms : List Mapping)
    (maximum : ℕ)
    → IsPython py
    → InRange tunnel_port
    → length specs ≤ maximum
    → Means specs ms
    → canonical_realm_mappings py user_ports tunnel_port specs maximum ≡ returned specs
canonical-again py user_ports tunnel_port specs [] maximum laws t n a =
    absurd (omega (arith, a.count.0))
canonical-again py user_ports tunnel_port specs (m ∷ ms) maximum laws t n a =
    let few = subst (λ s. ltb maximum (length s) ≡ false) (sym a.printed) (not_above maximum _ n) in
    subst (λ s. canonical_realm_mappings py user_ports tunnel_port s maximum ≡ returned s) a.printed
      (again_printed py user_ports tunnel_port m ms maximum laws t few a.in_range
        (Means-Fits (m ∷ ms) a))
