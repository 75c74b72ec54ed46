-- ===== src/Agents/Peers.antt =====
-- `_usable_peer_ips` of hub/agent_control_router.py. `peer_address` reads an IP address with
-- ipaddress.ip_address: `none` for a ValueError, `some none` for a loopback or unspecified address,
-- and else the address, where an IPv4-mapped one is the IPv4 address.
use dark_noc.Base.{
  leb, if◌then◌else◌, Bool-cases, Option-cases, length, any_row, ℕ, suc, ◌≤◌, ◌<◌, String, ◌≡◌,
  refl, ap, inl, inr, false, ◌||◌, Option, none, some, List, [], ◌∷◌, ◌++◌, arith, str_eq, eq_iff,
}
use dark_noc.Base.Json.{Json, null, bool, num, neg, str, arr, obj, Items, nil, cons, is_truthy}
use dark_noc.Fleet.Payload.{is_among}
use dark_noc.Python.{Python}
use dark_noc.Realm.Config.{address}
use dark_noc.Registry.Text.{has_twice}

module _ (py : Python) (peer_address : String → Option (Option String)) where
  abbrev pub peer_name : String → Option (Option String) → Option String
  peer_name text none = some text
  peer_name text (some none) = none
  peer_name text (some (some address)) = some address

  -- The identity that a value stands for, `none` where the loop continues.
  unfoldable pub peer_of : Json → Option String
  peer_of v =
      let text = py.strip (if is_truthy (some v) then py.text v else "") in
      if str_eq text "" || str_eq (py.casefold text) "localhost"
      then none
      else peer_name text (peer_address text)

  abbrev pub add_new : String → List String → List String
  add_new peer result = if is_among peer result then result else result ++ peer ∷ []

  -- for value in values, with the result so far
  unfoldable pub collect_peers : List String → Items → List String
  collect_peers result nil = result
  collect_peers result (cons v items) = elim (peer_of v) [
    | none ↦ collect_peers result items
    | some peer ↦
        let rest = collect_peers (add_new peer result) items in
        if leb 32 (length (add_new peer result)) then add_new peer result else rest
  ]

  unfoldable pub usable_peer_ips : Option Json → List String
  usable_peer_ips (some (arr items)) = collect_peers [] items
  usable_peer_ips _ = []

is_among-snoc :
    (s t : String) (ss : List String) → is_among s (ss ++ t ∷ []) ≡ (is_among s ss || str_eq s t)
unfolding any_row
is_among-snoc s t [] = ground arith
is_among-snoc s t (u ∷ ss) = ground (arith, is_among-snoc s t ss)

has_twice-snoc :
    (t : String) (ss : List String)
    → has_twice ss ≡ false
    → is_among t ss ≡ false
    → has_twice (ss ++ t ∷ []) ≡ false
unfolding has_twice any_row
has_twice-snoc t [] h k = refl
has_twice-snoc t (s ∷ ss) h k =
    ground (arith, has_twice-snoc t ss, is_among-snoc s t ss, eq_iff t s, eq_iff s t)

length-snoc : (t : String) (ss : List String) → length (ss ++ t ∷ []) ≡ suc (length ss)
length-snoc t [] = refl
length-snoc t (s ∷ ss) = ap suc (length-snoc t ss)

-- At most 32 names, none of them twice.
pub record IsPeers (ss : List String) : Type 0 where
  pub few : length ss ≤ 32
  pub none_twice : has_twice ss ≡ false

nobody : IsPeers []
unfolding has_twice
nobody = record { few = omega arith; none_twice = refl }

module _ (py : Python) (peer_address : String → Option (Option String)) where
  add_new-IsPeers :
      (peer : String) (ss : List String)
      → length ss < 32
      → has_twice ss ≡ false
      → IsPeers (add_new py peer_address peer ss)
  add_new-IsPeers peer ss h k = elim (Bool-cases (is_among peer ss)) [
    | inl e ↦ rw e (record { few = omega arith; none_twice = k })
    | inr e ↦ rw e (record {
      few = omega (arith, length-snoc peer ss);
      none_twice = has_twice-snoc peer ss k e;
    })
  ]

  collect_peers-IsPeers :
      (items : Items) (ss : List String)
      → length ss < 32
      → has_twice ss ≡ false
      → IsPeers (collect_peers py peer_address ss items)
  unfolding collect_peers
  collect_peers-IsPeers nil ss h k = record { few = omega arith; none_twice = k }
  collect_peers-IsPeers (cons v items) ss h k = elim (Option-cases (peer_of py peer_address v)) [
    | inl e ↦ rw (e, collect_peers) (collect_peers-IsPeers items ss h k)
    | inr (peer, e) ↦
        let added = add_new-IsPeers peer ss h k in
        let next = add_new py peer_address peer ss in
        elim (Bool-cases (leb 32 (length next))) [
          | inl full ↦ rw (e, collect_peers) (rw full added)
          | inr more ↦
              rw (e, collect_peers)
                (rw more
                  (collect_peers-IsPeers items next (below 32 (length next) more) added.none_twice))
        ]
  ]
    where
      below : (n m : ℕ) → leb n m ≡ false → m < n
      below n m e = ground arith

  -- Whatever an agent reports as peers, at most 32 are kept, and none of them twice.
  pub usable_peer_ips-IsPeers : (v : Option Json) → IsPeers (usable_peer_ips py peer_address v)
  unfolding usable_peer_ips
  usable_peer_ips-IsPeers (some (arr items)) =
      collect_peers-IsPeers items [] (omega arith) nobody.none_twice
  usable_peer_ips-IsPeers none = nobody
  usable_peer_ips-IsPeers (some null) = nobody
  usable_peer_ips-IsPeers (some (bool b)) = nobody
  usable_peer_ips-IsPeers (some (num n)) = nobody
  usable_peer_ips-IsPeers (some (neg n)) = nobody
  usable_peer_ips-IsPeers (some (str s)) = nobody
  usable_peer_ips-IsPeers (some (obj d)) = nobody
