-- ===== src/Samples/Checked.antt =====
-- The samples are well-formed databases.
use dark_noc.Base.{refl, [], arith}
use dark_noc.Store.Table.{Row, IsTable}
use dark_noc.Store.Valid.{
  IsNode, IsIncident, IsJob, IsDeployment, IsCertificate, IsMonitor, IsOperation, Anything,
  Consistent,
}
use dark_noc.Samples.{
  edge_node, open_incident, queued_job, valid_certificate, operation, one_row, sample, deployment,
  half_deployed,
}

empty-IsTable : {C : Type 0} (P : C → Type 0) → IsTable P (record { rows = []; next_id = 1 })
empty-IsTable P = record { rising = omega arith; each = tt }

row-IsTable : {C : Type 0} (P : C → Type 0) (r : Row C) → P r.cols → IsTable P (one_row r)
row-IsTable P r p = record { rising = (omega arith, omega arith); each = (p, tt) }

-- The sample is a well-formed database.
pub sample-Consistent : Consistent sample
sample-Consistent = record {
  nodes = row-IsTable IsNode edge_node (record {
    cooldown_low = omega arith;
    cooldown_high = omega arith;
    restarts_low = omega arith;
    restarts_high = omega arith;
  });
  sessions = empty-IsTable Anything;
  tunnels = empty-IsTable Anything;
  incidents = row-IsTable IsIncident open_incident refl;
  events = empty-IsTable Anything;
  jobs = row-IsTable IsJob queued_job (refl, refl, refl);
  deployments = empty-IsTable IsDeployment;
  hybrids = empty-IsTable Anything;
  certificates = row-IsTable IsCertificate valid_certificate (λ e. refl);
  monitors = empty-IsTable IsMonitor;
  results = empty-IsTable Anything;
  operations = row-IsTable IsOperation operation (λ e. cc);
  items = record { rising = (omega arith, (omega arith, omega arith)); each = (tt, (tt, tt)) };
  leases = empty-IsTable Anything;
}

pub half_deployed-Consistent : Consistent half_deployed
half_deployed-Consistent = record {
  nodes = sample-Consistent.nodes;
  sessions = sample-Consistent.sessions;
  tunnels = sample-Consistent.tunnels;
  incidents = sample-Consistent.incidents;
  events = sample-Consistent.events;
  hybrids = sample-Consistent.hybrids;
  certificates = sample-Consistent.certificates;
  monitors = sample-Consistent.monitors;
  results = sample-Consistent.results;
  operations = sample-Consistent.operations;
  items = sample-Consistent.items;
  leases = sample-Consistent.leases;
  jobs = record {
    rising = (omega arith, (omega arith, omega arith));
    each = ((refl, refl), ((refl, refl), tt));
  };
  deployments = row-IsTable IsDeployment deployment (λ same. omega (arith, same));
}
