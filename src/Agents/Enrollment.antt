-- ===== src/Agents/Enrollment.antt =====
-- `local_agent_enroll` of hub/agent_control_router.py: the agent on the Hub's own machine.
use dark_noc.Base.{
  ◌==◌, if◌then◌else◌, is_some, clip, concat, text_else, ℕ, String, str_append, Bool, true, false,
  not, ◌&&◌, ◌||◌, Option, none, some, [], ◌∷◌, str_eq,
}
use dark_noc.Base.Json.{end}
use dark_noc.Base.Text.{decimal}
use dark_noc.Store.Schema.{Role, NodeStatus, Node}
use dark_noc.Store.Table.{Row}
use dark_noc.Store.Hub.{nodes}
use dark_noc.Store.Tx.{
  ◌>>=◌, ◌>>◌, Tx, pure, reject_if, utc_ts, insert, update, fetch_one, refuse_clash,
}
use dark_noc.Agents.Heartbeat.{has_token}
use dark_noc.Nodes.{is_hub}
use dark_noc.Python.{Python}

-- What the request and the machine give; `enrollment` is secrets.token_urlsafe(36), and `suffix`
-- secrets.token_hex(2).
pub record LocalEnroll : Type 0 where
  pub expected : String
  pub bootstrap : Option String
  pub existing_agent : Option String
  pub hostname : String
  pub public_host : String
  pub enrollment : String
  pub suffix : String

pub record Enrolled : Type 0 where
  pub id : ℕ
  pub name : String
  pub agent_token : String
  pub reused : Bool

-- if not expected or not bootstrap or expected != bootstrap, with secrets.compare_digest
abbrev pub is_denied : String → Option String → Bool
is_denied expected none = true
is_denied expected (some given) =
    str_eq expected "" || str_eq given "" || not (str_eq expected given)

-- str(value or "")
abbrev pub text_or_empty : Option String → String
text_or_empty none = ""
text_or_empty (some s) = s

-- WHERE name=? AND id<>?
abbrev pub name_taken : String → Option ℕ → Row Node → Bool
name_taken name none n = str_eq n.cols.name name
name_taken name (some node_id) n = str_eq n.cols.name name && not (n.id == node_id)

module _ (py : Python) (token_hash : String → String) where
  abbrev pub is_reused : String → Option String → Bool
  is_reused supplied none = false
  is_reused supplied (some known) =
      not (str_eq supplied "") && not (str_eq known "") && str_eq known (token_hash supplied)

  -- UPDATE nodes, with the token kept or replaced
  unfoldable pub renew_hub :
      LocalEnroll → Row Node → String → String → String → Bool → ℕ → Tx Enrolled
  renew_hub e row supplied name host true now = do
    refuse_clash nodes (name_taken name (some row.id))
    update nodes (λ n. n.id == row.id)
        (λ n. record n {
          name = name;
          region = "NOC Hub";
          role = Role.hub;
          host = host;
          updated_at = now;
        })
    pure (record { id = row.id; name = name; agent_token = supplied; reused = true })
  renew_hub e row supplied name host false now = do
    refuse_clash nodes (λ n.
        name_taken name (some row.id) n
        || (not (n.id == row.id) && has_token (token_hash e.enrollment) n))
    update nodes (λ n. n.id == row.id)
        (λ n. record n {
          name = name;
          region = "NOC Hub";
          role = Role.hub;
          host = host;
          agent_token_hash = some (token_hash e.enrollment);
          status = NodeStatus.pending;
          agent_version = none;
          observed_ip = none;
          plugin_inventory = end;
          last_seen = none;
          updated_at = now;
        })
    pure (record { id = row.id; name = name; agent_token = e.enrollment; reused = false })

  unfoldable pub insert_hub : LocalEnroll → String → String → ℕ → Tx Enrolled
  insert_hub e name host now = do
    refuse_clash nodes (λ n. name_taken name none n || has_token (token_hash e.enrollment) n)
    node_id ← insert nodes (record {
      name = name;
      region = "NOC Hub";
      role = Role.hub;
      host = host;
      ssh_port = 22;
      ssh_user = "root";
      ssh_password_enc = none;
      ssh_key_enc = none;
      agent_token_hash = some (token_hash e.enrollment);
      status = NodeStatus.pending;
      agent_version = none;
      observed_ip = none;
      plugin_inventory = end;
      provision_status = none;
      provision_output = none;
      ssh_host_fingerprint = none;
      autoheal_enabled = false;
      autoheal_cooldown = 300;
      autoheal_max_restarts = 3;
      last_seen = none;
      created_at = now;
      updated_at = now;
    })
    pure (record { id = node_id; name = name; agent_token = e.enrollment; reused = false })

  abbrev pub hub_name : LocalEnroll → String
  hub_name e = clip 128 (str_append e.hostname " (Hub)")

  abbrev pub other_name : LocalEnroll → String → String
  other_name e suffix = clip 128 (concat (e.hostname ∷ " Hub-" ∷ suffix ∷ []))

  unfoldable pub enroll_hub : LocalEnroll → Option (Row Node) → String → ℕ → Tx Enrolled
  enroll_hub e (some row) host now = do
    taken ← fetch_one nodes (name_taken (hub_name e) (some row.id))
    let supplied = py.strip (text_or_empty e.existing_agent)
    renew_hub e row supplied (if is_some taken then other_name e (decimal row.id) else hub_name e)
        host (is_reused supplied row.cols.agent_token_hash) now
  enroll_hub e none host now = do
    taken ← fetch_one nodes (name_taken (hub_name e) none)
    insert_hub e (if is_some taken then other_name e e.suffix else hub_name e) host now

  unfoldable pub local_agent_enroll : LocalEnroll → Tx Enrolled
  local_agent_enroll e = do
    reject_if (is_denied e.expected e.bootstrap) 403 "Local enrollment denied"
    now ← utc_ts
    row ← fetch_one nodes (λ n. is_hub n.cols.role)
    enroll_hub e row (text_else (some (py.strip e.public_host)) "127.0.0.1") now
