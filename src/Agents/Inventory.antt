-- ===== src/Agents/Inventory.antt =====
-- After a fresh inventory the tunnels of a node are those of the report.
use mathlib.Core.Path.{subst}
use dark_noc.Base.{
  ◌==◌, if◌then◌else◌, where_rows, any_row, ℕ, String, ◌≡◌, refl, Bool, true, false, not, ◌&&◌,
  Option, none, List, [], ◌∷◌, map, arith,
}
use dark_noc.Store.Schema.{Node, Tunnel, Incident}
use dark_noc.Store.Table.{Row}
use dark_noc.Store.Hub.{Hub}
use dark_noc.Store.Tx.{◌>>=◌, ◌>>◌, Result, ok, pure, continue, for_each}
use dark_noc.Store.Cascade.{among, delete_tunnels}
use dark_noc.Agents.Beat.{settle_inventory, agent_heartbeat}
use dark_noc.Agents.Report.{AgentReport, agent_inventory_flags}
use dark_noc.Agents.Steady.{Leaves, Steady, steady_rules, resolve_incident-Steady}
use dark_noc.Agents.Tunnels.{active_names, remove_stale}
use dark_noc.Fleet.Payload.{is_among}
use dark_noc.Incident.{resolve_incident}
use dark_noc.Python.{Python}
use dark_noc.Store.Ends.{OnCommit, Ends, Ends-later, Ends-answer}

-- A tunnel of the node that is not in the inventory.
abbrev pub is_stale_tunnel : ℕ → List String → Row Tunnel → Bool
is_stale_tunnel node_id names t = t.cols.node_id == node_id && not (is_among t.cols.name names)

abbrev ids_of : List (Row Tunnel) → List ℕ
ids_of rows = map (λ (t : Row Tunnel). t.id) rows

resolving-Steady :
    (rows : List (Row Incident)) (message : String)
    → Steady (for_each rows (λ i. (do resolve_incident i.id message none none; pure tt)))
resolving-Steady rows message = search (steady_rules, resolve_incident-Steady) depth 12

among-if :
    (b : Bool) (n : ℕ) (t : Row Tunnel) (rows : List (Row Tunnel))
    → among n (ids_of rows) ≡ true
    → among n (ids_of (if b then t ∷ rows else rows)) ≡ true
unfolding any_row
among-if true n t rows e = rw e (ground arith)
among-if false n t rows e = e

-- A row that passes is dropped, and one that is kept does not pass.
any_row-kept :
    (test : Row Tunnel → Bool) (gone : Bool) (t : Row Tunnel) (rows : List (Row Tunnel))
    → (test t ≡ true → gone ≡ true)
    → any_row test rows ≡ false
    → any_row test (if not gone then t ∷ rows else rows) ≡ false
unfolding any_row
any_row-kept test true t rows covers e = e
any_row-kept test false t rows covers e = ground (arith, covers, e)

module _ (test : Row Tunnel → Bool) where
  -- The ids of the rows that pass the test.
  abbrev passing : List (Row Tunnel) → List ℕ
  passing rows = ids_of (where_rows test rows)

  among-cons :
      (n : ℕ) (t : Row Tunnel) (rows : List (Row Tunnel))
      → among n (passing rows) ≡ true
      → among n (passing (t ∷ rows)) ≡ true
  unfolding where_rows
  among-cons n t rows e = among-if (test t) n t (where_rows test rows) e

  among-head :
      (t : Row Tunnel) (rows : List (Row Tunnel))
      → test t ≡ true
      → among t.id (passing (t ∷ rows)) ≡ true
  unfolding any_row where_rows
  among-head t rows e = rw e (ground arith)

  none_left :
      (ids : List ℕ) (rows : List (Row Tunnel))
      → ((n : ℕ) → among n (passing rows) ≡ true → among n ids ≡ true)
      → any_row test (where_rows (λ (t : Row Tunnel). not (among t.id ids)) rows) ≡ false
  unfolding any_row where_rows
  none_left ids [] covers = refl
  none_left ids (t ∷ rows) covers =
      any_row-kept test (among t.id ids) t _ (λ e. covers t.id (among-head t rows e))
        (none_left ids rows (λ n e. covers n (among-cons n t rows e)))

abbrev Clear : ℕ → List String → Hub → Type 0
Clear node_id names h = any_row (is_stale_tunnel node_id names) h.tunnel_table.rows ≡ false

module _ (node_id : ℕ) (names : List String) (h : Hub) where
  abbrev stale_ids : List ℕ
  stale_ids = passing (is_stale_tunnel node_id names) h.tunnel_table.rows

  deletion-Clear :
      (h' : Hub)
      → h'.tunnel_table ≡ h.tunnel_table
      → OnCommit (Clear node_id names) (delete_tunnels (λ t. among t.id stale_ids) h')
  unfolding ◌>>=◌ delete_tunnels
  deletion-Clear h' same =
      rw same (none_left (is_stale_tunnel node_id names) stale_ids h.tunnel_table.rows (λ n e. e))

  -- The deletion that follows steps which leave the tunnels as they are.
  after-Clear :
      {A : Type 0} (x : Result (A × Hub))
      → Leaves x h
      → OnCommit
          (Clear node_id names)
          (continue x (λ _. delete_tunnels (λ t. among t.id stale_ids)))
  after-Clear x l = rw l.is_ok (deletion-Clear l.after l.same)

remove_stale-Clear :
    (node_id : ℕ) (names : List String) → Ends (Clear node_id names) (remove_stale node_id names)
unfolding ◌>>=◌ remove_stale
remove_stale-Clear node_id names = record {
  at = λ h. after-Clear node_id names h _ ((resolving-Steady _ _).at h);
}

settle_inventory-Clear :
    (fresh : Bool) (node_id : ℕ) (names : List String)
    → fresh ≡ true
    → Ends (Clear node_id names) (settle_inventory fresh node_id names)
settle_inventory-Clear true node_id names e = remove_stale-Clear node_id names
settle_inventory-Clear false node_id names e = absurd (cc e)

module _ (py : Python) (peers : String → Option (Option String))
    (managed like : String → String → Bool) (report : AgentReport) (client : Option String)
    (node : Row Node) where
  heartbeat-Ends :
      (agent_inventory_flags py report.metrics).is_fresh ≡ true
      → Ends
          (Clear node.id (active_names py peers managed report.tunnels))
          (agent_heartbeat py peers managed like report client node)
  unfolding agent_heartbeat
  heartbeat-Ends fresh = Ends-later _ _ _ (λ now. Ends-later _ _ _ (λ _. Ends-later _ _ _ (λ _.
      Ends-later _ _ _
        (λ _. Ends-later _ _ _ (λ _. Ends-answer _ _ now (settle_inventory-Clear _ _ _ fresh))))))

  -- If a heartbeat whose inventory is fresh commits, every tunnel that the node then has is among
  -- the names of the reports that a plugin manages.
  pub agent_heartbeat-IsFresh :
      (h h' : Hub) (now : ℕ)
      → (agent_inventory_flags py report.metrics).is_fresh ≡ true
      → agent_heartbeat py peers managed like report client node h ≡ ok (now, h')
      → any_row
          (is_stale_tunnel node.id (active_names py peers managed report.tunnels))
          h'.tunnel_table.rows
        ≡ false
  agent_heartbeat-IsFresh h h' now fresh e =
      subst (OnCommit (Clear node.id (active_names py peers managed report.tunnels))) e
        ((heartbeat-Ends fresh).at h)
