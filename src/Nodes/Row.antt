-- ===== src/Nodes/Row.antt =====
-- The rows of the tables `nodes`, `node_commands`, `node_data_plane_bootstrap_grants`,
-- `node_online_snapshots`, `node_online_counts`, `node_auth_decisions` and of the two tables of
-- nonces, as `Database.initialize` of hysteria2_panel.py creates and migrates them.
-- Timestamps are whole seconds since the epoch.
use hysteria2_panel.Prelude.{ℕ, String, Bool, true, false, Option, List}

pub data Status : Type 0 where
  pending_registration pending_verification revoked : Status

pub data PolicyState : Type 0 where
  standby protocol_ready : PolicyState

pub data DataPlaneState : Type 0 where
  not_issued bootstrap_issued data_plane_installed direct_canary_passed dns_admitted :
      DataPlaneState

pub data Lifecycle : Type 0 where
  active draining stopping stopped starting disconnecting archived : Lifecycle

pub data Tier : Type 0 where
  standard premium : Tier

pub data Kind : Type 0 where
  kick_users refresh_snapshot flush_traffic stop_data_plane stop_data_plane_if_idle start_data_plane
        uninstall_node :
      Kind

pub record Node : Type 0 where
  pub node_id : String
  pub name : String
  pub expected_ip : Option String
  pub observed_ip : Option String
  pub status : Status
  pub public_key : Option String
  pub agent_version : Option String
  pub hostname : Option String
  pub platform : Option String
  pub architecture : Option String
  pub tier : Tier
  pub region : String
  pub subscription_host : String
  pub subscription_port : ℕ
  pub listen_port : ℕ
  pub port_hopping : Bool
  pub created_at : ℕ
  pub registered_at : Option ℕ
  pub last_seen_at : Option ℕ
  pub verified_at : Option ℕ
  pub verified_by : Option String
  pub last_heartbeat_at : Option ℕ
  pub last_heartbeat_ip : Option String
  pub policy_state : PolicyState
  pub policy_enabled_at : Option ℕ
  pub policy_enabled_by : Option String
  pub last_snapshot_at : Option ℕ
  pub last_traffic_ack_at : Option ℕ
  pub data_plane_state : DataPlaneState
  pub data_plane_installed_at : Option ℕ
  pub direct_canary_passed_at : Option ℕ
  pub dns_admitted_at : Option ℕ
  pub dns_admitted_by : Option String
  pub dns_removed_at : Option ℕ
  pub dns_removed_by : Option String
  pub lifecycle_state : Lifecycle
  pub lifecycle_changed_at : Option ℕ
  pub lifecycle_changed_by : Option String
  pub budget_dns_confirmed_at : Option ℕ
  pub budget_idle_since : Option ℕ
  pub budget_checked_at : Option ℕ

-- `payload` holds the names of `{"users": [...]}`; it is empty for the fixed commands, whose
-- payload is `{}`.
pub record Command : Type 0 where
  pub command_id : String
  pub node_id : String
  pub kind : Kind
  pub payload : List String
  pub created_at : ℕ
  pub acked_at : Option ℕ
  pub attempts : ℕ
  pub delivered_at : Option ℕ
  pub next_attempt_at : ℕ
  pub quota_generations : Option (List (String × ℕ))
  pub last_error : Option String

pub record Grant : Type 0 where
  pub grant_id : String
  pub node_id : String
  pub token_digest : String
  pub bound_ip : String
  pub created_by : String
  pub created_at : ℕ
  pub expires_at : ℕ
  pub fetch_attempts : ℕ
  pub last_fetched_at : Option ℕ
  pub acknowledged_at : Option ℕ
  pub revoked_at : Option ℕ
  pub automatic_canary : Bool

-- `premium_node_profiles`, less its column `identity_json`
pub record Profile : Type 0 where
  pub node_id : String
  pub region : String
  pub label : String
  pub host : String
  pub port : ℕ
  pub listen_port : ℕ
  pub port_hopping : Bool

pub record Enrollment : Type 0 where
  pub enrollment_id : String
  pub node_id : String
  pub token_digest : String
  pub created_by : String
  pub created_at : ℕ
  pub expires_at : ℕ
  pub consumed_at : Option ℕ
  pub revoked_at : Option ℕ

pub record Snapshot : Type 0 where
  pub node_id : String
  pub snapshot_id : String
  pub sequence : ℕ
  pub observed_at : ℕ
  pub traffic_acked_at : ℕ
  pub accepted_at : ℕ

pub record OnlineCount : Type 0 where
  pub node_id : String
  pub user_name : String
  pub count : ℕ

pub record AuthDecision : Type 0 where
  pub node_id : String
  pub request_id : String
  pub decision_id : String
  pub allowed : Bool
  pub user_name : Option String
  pub created_at : ℕ
  pub expires_at : ℕ
  pub absorbed_at : Option ℕ

-- `local_auth_leases`
pub record Lease : Type 0 where
  pub decision_id : String
  pub user_name : String
  pub created_at : ℕ
  pub expires_at : ℕ

-- A row of `node_request_nonces`, or of `node_heartbeat_nonces` with the purpose "heartbeat".
pub record NonceRow : Type 0 where
  pub node_id : String
  pub purpose : String
  pub nonce_digest : String
  pub accepted_at : ℕ

-- The columns of `proxy_users` that the control plane reads or writes; `user_type` is 0 for a
-- standard account and 1 for a premium one.
pub record User : Type 0 where
  pub id : ℕ
  pub name : String
  pub enabled : Bool
  pub generation : ℕ
  pub user_type : ℕ
  pub token_fingerprint : String
  pub starts_at : Option ℕ
  pub expires_at : Option ℕ
  pub device_limit : ℕ
  pub traffic_limit_bytes : ℕ
  pub tx_bytes : ℕ
  pub rx_bytes : ℕ
  pub allow_udp_443 : Bool
  pub traffic_adjusted_at : Option ℕ
  pub domain_usage_reset_at : Option ℕ
  pub local_drain_started_at : Option ℕ
  pub created_at : ℕ
  pub updated_at : ℕ

-- The comparisons of a column with the texts that the statements name.
abbrev pub is_pending_verification : Status → Bool
is_pending_verification pending_verification = true
is_pending_verification _ = false

abbrev pub is_revoked : Status → Bool
is_revoked revoked = true
is_revoked _ = false

abbrev pub is_ready : PolicyState → Bool
is_ready protocol_ready = true
is_ready standby = false

abbrev pub is_installed : DataPlaneState → Bool
is_installed data_plane_installed = true
is_installed _ = false

abbrev pub is_canary_passed : DataPlaneState → Bool
is_canary_passed direct_canary_passed = true
is_canary_passed _ = false

abbrev pub is_admitted : DataPlaneState → Bool
is_admitted dns_admitted = true
is_admitted _ = false

-- `data_plane_installed`, `direct_canary_passed`, `dns_admitted`
abbrev pub has_data_plane : DataPlaneState → Bool
has_data_plane not_issued = false
has_data_plane bootstrap_issued = false
has_data_plane _ = true

abbrev pub is_active : Lifecycle → Bool
is_active active = true
is_active _ = false

abbrev pub is_draining : Lifecycle → Bool
is_draining draining = true
is_draining _ = false

-- `active`, `draining`
abbrev pub in_service : Lifecycle → Bool
in_service active = true
in_service draining = true
in_service _ = false

abbrev pub is_stopping : Lifecycle → Bool
is_stopping stopping = true
is_stopping _ = false

abbrev pub is_stopped : Lifecycle → Bool
is_stopped stopped = true
is_stopped _ = false

abbrev pub is_starting : Lifecycle → Bool
is_starting starting = true
is_starting _ = false

abbrev pub is_disconnecting : Lifecycle → Bool
is_disconnecting disconnecting = true
is_disconnecting _ = false

abbrev pub is_archived : Lifecycle → Bool
is_archived archived = true
is_archived _ = false

abbrev pub is_premium : Tier → Bool
is_premium premium = true
is_premium standard = false

-- `STOP_DATA_PLANE`, `STOP_DATA_PLANE_IF_IDLE`
abbrev pub is_stop : Kind → Bool
is_stop stop_data_plane = true
is_stop stop_data_plane_if_idle = true
is_stop _ = false

abbrev pub is_start : Kind → Bool
is_start start_data_plane = true
is_start _ = false

abbrev pub is_uninstall : Kind → Bool
is_uninstall uninstall_node = true
is_uninstall _ = false

abbrev pub is_kick : Kind → Bool
is_kick kick_users = true
is_kick _ = false
