-- ===== src/Nodes/Keeps.antt =====
-- Every operation on nodes keeps the database consistent.
use dark_noc.Base.{ℕ, ◌≤◌, String, Option, none, some, arith}
use dark_noc.Store.Schema.{Node}
use dark_noc.Store.Bodies.{NodeBody}
use dark_noc.Store.Table.{Row}
use dark_noc.Store.Hub.{nodes}
use dark_noc.Store.Keeps.{Keeps, Keeps-pure, Keeps-throw, Keeps-fetch_one}
use dark_noc.Store.Governed.{keeps_rules, delete_nodes-Keeps}
use dark_noc.Nodes.{
  find_node_endpoint_conflict, refuse_conflict, create_node_mutation, update_node_mutation,
  prepare_node_provision_mutation, delete_node_mutation, reset_node_fingerprint_mutation,
}
use dark_noc.Realm.Mappings.{port}

refuse_conflict-Keeps : (n : Option (Row Node)) → Keeps (refuse_conflict n)
unfolding refuse_conflict
refuse_conflict-Keeps none = Keeps-pure tt
refuse_conflict-Keeps (some n) = Keeps-throw _

conflict-Keeps :
    (canonicalize_host : String → String) (host : String) (port : ℕ) (exclude : Option ℕ)
    → Keeps (find_node_endpoint_conflict canonicalize_host host port exclude)
unfolding find_node_endpoint_conflict
conflict-Keeps canonicalize_host host port exclude = Keeps-fetch_one nodes _

ruleset node_rules = (refuse_conflict-Keeps, conflict-Keeps)

pub default_low : 60 ≤ 300
default_low = omega arith

pub default_high : 300 ≤ 86400
default_high = omega arith

pub default_few : 1 ≤ 3
default_few = omega arith

pub default_many : 3 ≤ 12
default_many = omega arith

pub ruleset policy = (default_low, default_high, default_few, default_many)

module _ (encrypt : Option String → Option String) (canonicalize_host : String → String) where
  pub create_node-Keeps :
      (token_hash : String → String) (body : NodeBody) (enrollment : String) (now : ℕ)
      → Keeps (create_node_mutation encrypt canonicalize_host token_hash body enrollment now)
  unfolding create_node_mutation
  create_node-Keeps token_hash body enrollment now =
      search (keeps_rules, node_rules, policy) depth 20

  pub update_node-Keeps :
      (n : ℕ) (body : NodeBody) (now : ℕ)
      → Keeps (update_node_mutation encrypt canonicalize_host n body now)
  unfolding update_node_mutation
  update_node-Keeps n body now = search (keeps_rules, node_rules) depth 20

pub prepare_node_provision-Keeps :
    (canonicalize_host : String → String) (n now : ℕ)
    → Keeps (prepare_node_provision_mutation canonicalize_host n now)
unfolding prepare_node_provision_mutation
prepare_node_provision-Keeps canonicalize_host n now = search (keeps_rules, node_rules) depth 20

pub delete_node-Keeps : (n : ℕ) → Keeps (delete_node_mutation n)
unfolding delete_node_mutation
delete_node-Keeps n = search (keeps_rules, delete_nodes-Keeps) depth 16

pub reset_node_fingerprint-Keeps : (n now : ℕ) → Keeps (reset_node_fingerprint_mutation n now)
unfolding reset_node_fingerprint_mutation
reset_node_fingerprint-Keeps n now = search keeps_rules depth 16
