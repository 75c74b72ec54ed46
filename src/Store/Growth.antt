-- ===== src/Store/Growth.antt =====
-- How the tables grow: ids are handed out once. The tables of sessions and leases are left out, whose
-- keys are texts.
use dark_noc.Base.{
  where_rows, first_row, ℕ, ◌≤◌, ◌<◌, ◌≡◌, refl, ap, ◌∙◌, Bool, not, none, List, [], ◌∷◌, ◌++◌,
  arith,
}
use dark_noc.Store.Table.{Row, Table, add, change, discard, find, amend_if, find-update}
use dark_noc.Store.Hub.{Hub}

-- A table that came from `t`: the next id did not fall, and no id that had been handed out and was not
-- in the table is in it again.
pub record Extends {C : Type 0} (t t' : Table C) : Type 0 where
  pub grows : t.next_id ≤ t'.next_id
  pub gone : (n : ℕ) → n < t.next_id → find n t.rows ≡ none → find n t'.rows ≡ none

module _ {C : Type 0} where
  pub Extends-refl : (t : Table C) → Extends t t
  Extends-refl t = record { grows = omega arith; gone = λ n b e. e }

  pub Extends-trans : (t t' t'' : Table C) → Extends t t' → Extends t' t'' → Extends t t''
  Extends-trans t t' t'' a b = record {
    grows = omega (arith, a.grows, b.grows);
    gone = λ n k e. b.gone n (omega (arith, k, a.grows)) (a.gone n k e);
  }

  find-snoc :
      (n m : ℕ) (c : C) (rows : List (Row C))
      → n < m
      → find n rows ≡ none
      → find n (rows ++ record { id = m; cols = c } ∷ []) ≡ none
  unfolding first_row
  find-snoc n m c [] b e = ground arith
  find-snoc n m c (r ∷ rows) b e = ground (arith, e, find-snoc n m c rows b)

  find-discarded :
      (n : ℕ) (test : Row C → Bool) (rows : List (Row C))
      → find n rows ≡ none
      → find n (where_rows test rows) ≡ none
  unfolding first_row where_rows
  find-discarded n test [] e = refl
  find-discarded n test (r ∷ rows) e = ground (arith, e, find-discarded n test rows)

  pub Extends-add : (c : C) (t : Table C) → Extends t (add c t)
  Extends-add c t = record {
    grows = omega arith;
    gone = λ n b e. find-snoc n t.next_id c t.rows b e;
  }

  pub Extends-change : (test : Row C → Bool) (f : C → C) (t : Table C) → Extends t (change test f t)
  Extends-change test f t = record {
    grows = omega arith;
    gone = λ n b e. find-update n test f t.rows ∙ ap (amend_if test f) e;
  }

  pub Extends-discard : (test : Row C → Bool) (t : Table C) → Extends t (discard test t)
  Extends-discard test t = record {
    grows = omega arith;
    gone = λ n b e. find-discarded n (λ r. not (test r)) t.rows e;
  }

-- Every table of `h'` with numbered rows came from that of `h`.
pub record Grown (h h' : Hub) : Type 0 where
  pub nodes : Extends h.node_table h'.node_table
  pub tunnels : Extends h.tunnel_table h'.tunnel_table
  pub incidents : Extends h.incident_table h'.incident_table
  pub events : Extends h.event_table h'.event_table
  pub jobs : Extends h.job_table h'.job_table
  pub deployments : Extends h.deployment_table h'.deployment_table
  pub hybrids : Extends h.hybrid_table h'.hybrid_table
  pub certificates : Extends h.certificate_table h'.certificate_table
  pub monitors : Extends h.monitor_table h'.monitor_table
  pub results : Extends h.result_table h'.result_table
  pub operations : Extends h.operation_table h'.operation_table
  pub items : Extends h.item_table h'.item_table

pub Grown-refl : (h : Hub) → Grown h h
Grown-refl h = record {
  nodes = Extends-refl h.node_table;
  tunnels = Extends-refl h.tunnel_table;
  incidents = Extends-refl h.incident_table;
  events = Extends-refl h.event_table;
  jobs = Extends-refl h.job_table;
  deployments = Extends-refl h.deployment_table;
  hybrids = Extends-refl h.hybrid_table;
  certificates = Extends-refl h.certificate_table;
  monitors = Extends-refl h.monitor_table;
  results = Extends-refl h.result_table;
  operations = Extends-refl h.operation_table;
  items = Extends-refl h.item_table;
}

pub Grown-trans : (h h' h'' : Hub) → Grown h h' → Grown h' h'' → Grown h h''
Grown-trans h h' h'' a b = record {
  nodes = Extends-trans h.node_table h'.node_table h''.node_table a.nodes b.nodes;
  tunnels = Extends-trans h.tunnel_table h'.tunnel_table h''.tunnel_table a.tunnels b.tunnels;
  incidents =
      Extends-trans h.incident_table h'.incident_table h''.incident_table a.incidents b.incidents;
  events = Extends-trans h.event_table h'.event_table h''.event_table a.events b.events;
  jobs = Extends-trans h.job_table h'.job_table h''.job_table a.jobs b.jobs;
  deployments =
      Extends-trans h.deployment_table h'.deployment_table h''.deployment_table a.deployments
        b.deployments;
  hybrids = Extends-trans h.hybrid_table h'.hybrid_table h''.hybrid_table a.hybrids b.hybrids;
  certificates =
      Extends-trans h.certificate_table h'.certificate_table h''.certificate_table a.certificates
        b.certificates;
  monitors = Extends-trans h.monitor_table h'.monitor_table h''.monitor_table a.monitors b.monitors;
  results = Extends-trans h.result_table h'.result_table h''.result_table a.results b.results;
  operations =
      Extends-trans h.operation_table h'.operation_table h''.operation_table a.operations
        b.operations;
  items = Extends-trans h.item_table h'.item_table h''.item_table a.items b.items;
}
