-- ===== src/Scenarios.antt =====
-- The theorems at concrete inputs: incidents, leases, certificates, nodes and whole runs.
mod Jobs
mod Rollouts
mod Realms
mod Catalogs
mod Heartbeats
mod Logins
mod Browsers
mod Healings
use dark_noc.Base.{first_row, ◌+◌, ◌≡◌, refl, some, [], ◌∷◌, arith}
use dark_noc.Store.Table.{find}
use dark_noc.Store.Hub.{Hub}
use dark_noc.Store.Tx.{settle, http_status}
use dark_noc.Store.Valid.{Consistent}
use dark_noc.Store.Growth.{Grown}
use dark_noc.Certificates.{listener_certificate}
use dark_noc.Certificates.Listener.{listener_certificate-usable}
use dark_noc.Incident.{acknowledge, incident_action_mutation}
use dark_noc.Incident.Lifecycle.{
  status_at, next, incident_action-status, expected_answer, incident_action-answer,
  incident_action-other,
}
use dark_noc.Lease.{acquire_hub_lease}
use dark_noc.Lease.Exclusion.{view, grant, answer, acquire-grant, Request, serve, serve-exclusion}
use dark_noc.Maintenance.{age_certificates}
use dark_noc.Maintenance.Expiry.{certificate_status, dated_row, age_certificates-dated}
use dark_noc.Nodes.{create_node_mutation}
use dark_noc.Nodes.Endpoints.{Apart, create_node-Apart}
use dark_noc.Requests.{create_node, delete_node, maintain, run}
use dark_noc.Requests.Reach.{run-Consistent, Reachable-Consistent}
use dark_noc.Requests.States.{initial, serves, Reachable, then_step, now_on, after_step}
use dark_noc.Samples.{world, sample, acknowledge_body, node_body}
use dark_noc.Samples.Checked.{sample-Consistent}
use dark_noc.Store.Ends.{answer_of}

incident_action-status_example :
    status_at 1 (settle sample (incident_action_mutation 1 acknowledge_body 7 1100 sample))
    ≡ next acknowledge (status_at 1 sample)
incident_action-status_example = incident_action-status sample 1 acknowledge_body 7 1100

incident_action-answer_example :
    http_status (incident_action_mutation 1 acknowledge_body 7 1100 sample)
    ≡ expected_answer acknowledge (status_at 1 sample)
incident_action-answer_example = incident_action-answer sample 1 acknowledge_body 7 1100

incident_action-other_example :
    find 1
      (settle sample
        (incident_action_mutation 2 acknowledge_body 7 1100 sample)).incident_table.rows
    ≡ find 1 sample.incident_table.rows
incident_action-other_example =
    incident_action-other sample 2 acknowledge_body 7 1100 1 (omega arith)

acquire-grant_example :
    (
      answer (acquire_hub_lease 30 "hub-a" "maintenance" (some 1000) sample),
      view "maintenance"
          (settle sample (acquire_hub_lease 30 "hub-a" "maintenance" (some 1000) sample)),
    )
    ≡ grant (view "maintenance" sample) "hub-a" 1000 30
acquire-grant_example = acquire-grant sample 30 "hub-a" "maintenance" 1000 (omega arith)

abbrev held : Hub
held = record sample {
  lease_table = record {
    rows =
        record {
          id = 1;
          cols = record {
            name = "maintenance";
            holder = "hub-a";
            expires_at = 1030;
            updated_at = 1000;
          };
        }
        ∷ [];
    next_id = 2;
  };
}

abbrev rival : Request
rival = record { asker = "hub-b"; now = 1010; term = 30 }

serve-exclusion_example :
    view "maintenance" (serve "maintenance" (rival ∷ []) held) ≡ some ("hub-a", 1030)
unfolding first_row
serve-exclusion_example =
    serve-exclusion "maintenance" "hub-a" 1030 (rival ∷ []) held refl
      (refl, (omega arith, (omega arith, tt)))

age_certificates-dated_example :
    certificate_status
      (find 1 (settle sample (age_certificates 8999999 sample)).certificate_table.rows)
    ≡ dated_row 8999999 (find 1 sample.certificate_table.rows)
age_certificates-dated_example = age_certificates-dated 8999999 1 sample

listener_certificate-usable_example :
    answer_of (listener_certificate (some 1) 1 sample)
    ≡ some (record {
      certificate_id = 1;
      certificate_domain = "edge.example";
      certificate_path = some "/etc/cert.pem";
      certificate_key_path = some "/etc/key.pem";
    })
unfolding first_row
listener_certificate-usable_example =
    listener_certificate-usable (some 1) 1 sample sample-Consistent

sample-Apart : Apart (λ s. s) sample.node_table.rows
unfolding first_row
sample-Apart m n a b e f k = absurd (ground arith)

create_node-Apart_example :
    Apart
      (λ s. s)
      (settle sample (
        create_node_mutation
          (λ s. s)
          (λ s. s)
          (λ s. s)
          node_body
          "token"
          1200
          sample)).node_table.rows
create_node-Apart_example =
    create_node-Apart (λ s. s) (λ s. s) (λ s. s) node_body "token" 1200 sample sample-Apart

run-Consistent_example : Consistent (run world maintain sample)
run-Consistent_example = run-Consistent world maintain sample sample-Consistent

Reachable-Consistent_example :
    Consistent (
      run world
        (delete_node 1 1300)
        (run world (create_node node_body "token" 1200) (initial (λ n. 1000 + n))))
    × Grown (run world (create_node node_body "token" 1200) (initial (λ n. 1000 + n))) (
        run world
          (delete_node 1 1300)
          (run world (create_node node_body "token" 1200) (initial (λ n. 1000 + n))))
Reachable-Consistent_example =
    Reachable-Consistent world
      (run world (create_node node_body "token" 1200) (initial (λ n. 1000 + n)))
      (run world (delete_node 1 1300)
        (run world (create_node node_body "token" 1200) (initial (λ n. 1000 + n))))
      (then_step (Reachable.start (λ n. 1000 + n)) (serves _ (create_node node_body "token" 1200)))
      (after_step now_on (serves _ (delete_node 1 1300)))
