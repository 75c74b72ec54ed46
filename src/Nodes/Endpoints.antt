-- ===== src/Nodes/Endpoints.antt =====
-- No two nodes share an SSH endpoint.
use mathlib.Core.Path.{subst}
use mathlib.Core.Option.{some-injective}
use dark_noc.Base.{
  ◌==◌, Bool-cases, Option-cases, filled, first_row, any_row, ℕ, String, ◌≡◌, sym, ◌∙◌, ◌≢◌, ◌⊎◌,
  inl, inr, Bool, true, false, not, ◌&&◌, ◌||◌, Option, none, some, List, [], ◌∷◌, ◌++◌, arith,
  str_eq, eq_iff,
}
use dark_noc.Base.Json.{end}
use dark_noc.Store.Schema.{NodeStatus, Provision, Node}
use dark_noc.Store.Bodies.{NodeBody}
use dark_noc.Store.Table.{Row, find}
use dark_noc.Store.Hub.{Hub}
use dark_noc.Store.Tx.{◌>>=◌, on_integrity, settle}
use dark_noc.Nodes.{
  is_hub, is_other, is_at, find_node_endpoint_conflict, same_text, refuse_conflict,
  create_node_mutation,
}

module _ (canonicalize_host : String → String) where
  abbrev pub same_endpoint : Row Node → Row Node → Bool
  same_endpoint a b = is_at canonicalize_host b.cols.host b.cols.ssh_port a

  -- Nodes with different ids have different endpoints.
  abbrev pub Apart : List (Row Node) → Type 0
  Apart rows =
      (m n : ℕ) (a b : Row Node)
      → find m rows ≡ some a
      → find n rows ≡ some b
      → m ≢ n
      → same_endpoint a b ≡ false

  same_endpoint-sym : (a b : Row Node) → same_endpoint a b ≡ false → same_endpoint b a ≡ false
  same_endpoint-sym a b k = ground (
    arith,
    eq_iff (canonicalize_host a.cols.host) (canonicalize_host b.cols.host),
    eq_iff (canonicalize_host b.cols.host) (canonicalize_host a.cols.host),
  )

  -- The row that a query without an answer passes over.
  missed :
      (query : Row Node → Bool) (rows : List (Row Node)) (n : ℕ) (r : Row Node)
      → first_row query rows ≡ none
      → find n rows ≡ some r
      → query r ≡ false
  unfolding first_row
  missed query [] n r k e = absurd cc
  missed query (x ∷ rows) n r k e = elim (Bool-cases (x.id == n)) [
    | inl p ↦ subst (λ y. query y ≡ false) (some-injective x r (rw p at e)) (ground arith)
    | inr p ↦ missed query rows n r (ground arith) (rw p at e)
  ]

  -- What is found after an INSERT: an old row, or the new one.
  found_after :
      (rows : List (Row Node)) (new : Row Node) (n : ℕ) (r : Row Node)
      → find n (rows ++ new ∷ []) ≡ some r
      → (find n rows ≡ some r) ⊎ ((new ≡ r) × (new.id ≡ n))
  unfolding first_row
  found_after [] new n r e = elim (Bool-cases (new.id == n)) [
    | inl p ↦ inr (some-injective new r (rw p at e), ground arith)
    | inr p ↦ absurd (ground arith)
  ]
  found_after (x ∷ rows) new n r e = elim (Bool-cases (x.id == n)) [
    | inl p ↦ inl (ground arith)
    | inr p ↦ rw p (found_after rows new n r (rw p at e))
  ]

  Apart-append :
      (rows : List (Row Node)) (new : Row Node)
      → Apart rows
      → ((n : ℕ) (r : Row Node) → find n rows ≡ some r → same_endpoint r new ≡ false)
      → Apart (rows ++ new ∷ [])
  Apart-append rows new d free m n a b e f k = elim (found_after rows new m a e) [
    | inl old ↦ elim (found_after rows new n b f) [
      | inl old' ↦ d m n a b old old' k
      | inr (q, i) ↦ subst (λ y. same_endpoint a y ≡ false) q (free m a old)
    ]
    | inr (q, i) ↦ elim (found_after rows new n b f) [
      | inl old' ↦
          subst (λ y. same_endpoint y b ≡ false) q (same_endpoint-sym b new (free n b old'))
      | inr (q', i') ↦ absurd (k (sym i ∙ i'))
    ]
  ]

and_true : (b : Bool) → (b && true) ≡ false → b ≡ false
and_true true k = k
and_true false k = k

module _ (encrypt : Option String → Option String) (canonicalize_host : String → String)
    (token_hash : String → String) (body : NodeBody) (enrollment : String) (now : ℕ) (h : Hub) where
  taken : Bool
  taken =
      any_row
        (λ (n : Row Node).
          str_eq n.cols.name body.name
          || same_text n.cols.agent_token_hash (some (token_hash enrollment)))
        h.node_table.rows

  -- The row that is inserted.
  created : Node
  created = record {
    name = body.name;
    region = body.region;
    role = body.role;
    host = body.host;
    ssh_port = body.ssh_port;
    ssh_user = body.ssh_user;
    ssh_password_enc = encrypt body.ssh_password;
    ssh_key_enc = encrypt body.ssh_private_key;
    agent_token_hash = some (token_hash enrollment);
    status = NodeStatus.pending;
    agent_version = none;
    observed_ip = none;
    plugin_inventory = end;
    provision_status = some Provision.provisioning;
    provision_output = none;
    ssh_host_fingerprint = none;
    autoheal_enabled = false;
    autoheal_cooldown = 300;
    autoheal_max_restarts = 3;
    last_seen = none;
    created_at = now;
    updated_at = now;
  }

  refused : Bool
  refused =
      is_hub body.role
      || (not (filled body.ssh_password) && not (filled body.ssh_private_key))
      || not (str_eq body.ssh_user "root")
      || taken

  -- If every two nodes have different endpoints (the port, and the host in canonical form), creating
  -- a node leaves it so, whatever the request says.
  pub create_node-Apart :
      Apart canonicalize_host h.node_table.rows
      → Apart canonicalize_host
          (settle h (
            create_node_mutation encrypt canonicalize_host token_hash body enrollment now
              h)).node_table.rows
  unfolding create_node_mutation find_node_endpoint_conflict refuse_conflict on_integrity taken
      refused created ◌>>=◌
  create_node-Apart d =
      let at : Row Node → Bool =
        λ n. is_at canonicalize_host body.host body.ssh_port n && is_other none n.id in
      let rows = h.node_table.rows in
      let after : List (Row Node) =
        (settle h (
          create_node_mutation encrypt canonicalize_host token_hash body enrollment now
            h)).node_table.rows in
      elim (Bool-cases refused) [
        | inl g ↦
            let same : after ≡ rows = ground arith in subst (Apart canonicalize_host) (sym same) d
        | inr g ↦ elim (Option-cases (first_row at rows)) [
          | inr (x, e) ↦
              let same : after ≡ rows = ground arith in subst (Apart canonicalize_host) (sym same) d
          | inl e ↦
              let new : Row Node = record { id = h.node_table.next_id; cols = created } in
              let grown : after ≡ rows ++ new ∷ [] = ground arith in
              subst (Apart canonicalize_host) (sym grown) (
                Apart-append canonicalize_host rows new d
                  (λ n r q. and_true _ (missed canonicalize_host at rows n r e q)))
        ]
      ]
