-- ===== src/Nodes/Invariant.antt =====
-- What every reachable state of the node tables satisfies.
pub mod Rules
pub mod Admission
pub mod Lifecycle
pub mod Commands
pub mod Registration
pub mod Authorization
pub mod Bootstrap
pub mod Accounts
use hysteria2_panel.Prelude.{
  List, String, ◌≡◌, Bool, true, ◌&&◌, ◌||◌, is_null, is_set, ltb, row_count, All, Unique,
}
use hysteria2_panel.Nodes.Row.{
  Node, Command, Enrollment, Kind, is_pending_verification, is_ready, is_admitted, is_archived,
  is_stopping, is_starting, is_disconnecting, is_stop, is_start, is_uninstall,
}
use hysteria2_panel.Nodes.Database.{Database, node_is, unacked}

-- A node under the control protocol was verified. A node that is recorded as admitted to DNS was
-- verified, has an installed data plane, has passed a canary, and, unless it is archived, is
-- registered and under the protocol.
pub record IsServing (n : Node) : Type 0 where
  pub ready : is_ready n.policy_state ≡ true → is_set n.verified_at ≡ true
  pub admitted :
      is_admitted n.data_plane_state ≡ true
      → (is_set n.verified_at
          && is_set n.data_plane_installed_at
          && is_set n.direct_canary_passed_at
          && is_set n.dns_admitted_at
          && (is_archived n.lifecycle_state
              || is_pending_verification n.status && is_ready n.policy_state))
        ≡ true

-- The node has a command of the kind that it has not acknowledged.
abbrev pub awaits : (Kind → Bool) → String → List Command → Bool
awaits test node_id commands =
    ltb 0 (row_count (λ (c : Command). unacked node_id c && test c.kind) commands)

-- A node that is stopping, starting or disconnecting has the command pending whose acknowledgement
-- ends that state.
pub record IsAwaited (commands : List Command) (n : Node) : Type 0 where
  pub stop : is_stopping n.lifecycle_state ≡ true → awaits is_stop n.node_id commands ≡ true
  pub start : is_starting n.lifecycle_state ≡ true → awaits is_start n.node_id commands ≡ true
  pub uninstall :
      is_disconnecting n.lifecycle_state ≡ true → awaits is_uninstall n.node_id commands ≡ true

-- The node of an enrollment exists, and has not registered while the enrollment is unused.
pub record IsEnrolled (nodes : List Node) (e : Enrollment) : Type 0 where
  pub known : ltb 0 (row_count (node_is e.node_id) nodes) ≡ true
  pub unused :
      is_null e.consumed_at ≡ true
      → row_count (λ n. node_is e.node_id n && is_pending_verification n.status) nodes ≡ 0

-- Ids are primary keys, and every node satisfies both. A node has one
-- enrollment.
pub record Sound (nodes : List Node) (commands : List Command) (enrollments : List Enrollment)
    : Type 0 where
  pub node_key : Unique (λ n. n.node_id) nodes
  pub command_key : Unique (λ c. c.command_id) commands
  pub serving : All IsServing nodes
  pub awaited : All (IsAwaited commands) nodes
  pub enrollment_key : Unique (λ e. e.node_id) enrollments
  pub enrolled : All (IsEnrolled nodes) enrollments

abbrev pub Consistent : Database → Type 0
Consistent db = Sound db.nodes db.commands db.enrollments
