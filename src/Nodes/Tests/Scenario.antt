-- ===== src/Nodes/Tests/Scenario.antt =====
-- A node from its announcement to its stop, for the tests.
use hysteria2_panel.Prelude.{String, true, false, Option, some, none, List, [], ◌∷◌}
use hysteria2_panel.Nodes.Row.{
  standard, protocol_ready, Node, Command, pending_verification, dns_admitted, draining, Enrollment,
  stop_data_plane, Snapshot,
}
use hysteria2_panel.Nodes.Database.{Database, empty_database, fixed_command}
use hysteria2_panel.Nodes.Enrollment.{Registration}
use hysteria2_panel.Nodes.Enrollment.Announcement.{new_node}
use hysteria2_panel.Nodes.Commands.Delivery.{Sent}
use hysteria2_panel.Nodes.Requests.{Request, Reaches, run}

abbrev pub same : String → Option String
same s = some s

abbrev pub verbatim : String → String
verbatim s = s

abbrev pub node : String
node = "00000000000000000000000000000001"

abbrev pub token : String
token = "0000000000000000000000000000000000000000000000000000000000000001"

abbrev pub digest : String
digest = "0000000000000000000000000000000000000000000000000000000000000002"

abbrev pub blank : Node
blank = new_node "" "" none 0 standard "" "" 0 0 false

abbrev pub snapshot : Snapshot
snapshot = record {
  node_id = node;
  snapshot_id = "snapshot";
  sequence = 1;
  observed_at = 1026;
  traffic_acked_at = 1025;
  accepted_at = 1027;
}

abbrev pub registration : Registration
registration = record {
  public_key = "key";
  observed_ip = "192.0.2.1";
  hostname = "host";
  platform = "linux";
  architecture = "x86_64";
  agent_version = "0.40.0";
}

abbrev pub do_request : Request → Database → Database
do_request = run same same verbatim same verbatim verbatim

abbrev pub blank_enrollment : Enrollment
blank_enrollment = record {
  enrollment_id = "";
  node_id = "";
  token_digest = "";
  created_by = "";
  created_at = 0;
  expires_at = 0;
  consumed_at = none;
  revoked_at = none;
}

abbrev pub blank_database : Database
blank_database = empty_database

-- A node that is announced, registers, is heard of and is put under the protocol
abbrev pub r_announce : Request
r_announce =
    Request.announce node "enrollment" "tokyo" none "admin" token 1000 1600 standard "" "" 19999
      false

abbrev pub r_enroll : Request
r_enroll = Request.enroll token registration 1010

abbrev pub r_heartbeat : Request
r_heartbeat = Request.heartbeat node token 1020 "192.0.2.1" "0.40.0"

abbrev pub r_policy : Request
r_policy = Request.policy node protocol_ready "admin" 1030

abbrev pub r_stop : Request
r_stop = Request.stop "command" node "admin" 1040 false true 150

abbrev pub announced : Database
announced = do_request r_announce blank_database

abbrev pub heard : Database
heard = do_request r_heartbeat (do_request r_enroll announced)

abbrev pub enabled : Database
enabled = do_request r_policy heard

abbrev pub stopping : Database
stopping = do_request r_stop enabled

abbrev pub Reached : Database → Type 0
Reached = Reaches same same verbatim same verbatim verbatim

pub announced-Reached : Reached announced
announced-Reached = Reaches.step _ r_announce (Reaches.start [] [] [])

pub heard-Reached : Reached heard
heard-Reached = Reaches.step _ r_heartbeat (Reaches.step _ r_enroll announced-Reached)

pub enabled-Reached : Reached enabled
enabled-Reached = Reaches.step _ r_policy heard-Reached

pub stopping-Reached : Reached stopping
stopping-Reached = Reaches.step _ r_stop enabled-Reached

-- The same node with an installed data plane in DNS, then draining, then asked to stop
abbrev pub r_grant : Request
r_grant = Request.grant "grant" node token "192.0.2.1" "admin" 1022 1622 true token

abbrev pub r_fetch : Request
r_fetch = Request.fetch node token "192.0.2.1" token 1024

abbrev pub r_online : Request
r_online = Request.online snapshot [] token

abbrev pub r_installed : Request
r_installed = Request.installed node token "192.0.2.1" token 1030 true

abbrev pub r_quiet_stop : Request
r_quiet_stop = Request.stop "command" node "admin" 1034 true false 43

abbrev pub r_ack : Request
r_ack = Request.ack node "command" true "" token 1036

abbrev pub admitted : Database
admitted =
    do_request r_installed (do_request r_online (do_request r_fetch (do_request r_grant heard)))

-- A node in DNS that is draining, with a fresh snapshot and nobody online
abbrev pub draining_node : Node
draining_node = record (new_node node "tokyo" none 1000 standard "" "" 19999 19999 false) {
  status = pending_verification;
  verified_at = some 1010;
  policy_state = protocol_ready;
  data_plane_state = dns_admitted;
  data_plane_installed_at = some 1015;
  direct_canary_passed_at = some 1016;
  dns_admitted_at = some 1017;
  last_heartbeat_at = some 1027;
  last_snapshot_at = some 1027;
  last_traffic_ack_at = some 1025;
  lifecycle_state = draining;
}

abbrev pub draining_database : Database
draining_database = record empty_database { nodes = draining_node ∷ []; snapshots = snapshot ∷ [] }

abbrev pub quiet : Database
quiet = do_request r_quiet_stop draining_database

abbrev pub stopped_now : Database
stopped_now = do_request r_ack quiet

pub admitted-Reached : Reached admitted
admitted-Reached =
    Reaches.step _ r_installed
      (Reaches.step _ r_online (Reaches.step _ r_fetch (Reaches.step _ r_grant heard-Reached)))

abbrev pub first_node : Database → Node
first_node db = elim db.nodes [ [] ↦ blank | n ∷ _ ↦ n ]

abbrev pub first_enrollment : Database → Enrollment
first_enrollment db = elim db.enrollments [ [] ↦ blank_enrollment | e ∷ _ ↦ e ]

abbrev pub acked_twice : Database
acked_twice = do_request (Request.ack node "command" false "FAILED" digest 1037) stopped_now

abbrev pub polled : Database
polled = do_request (Request.poll node token 1041) stopping

abbrev pub polled_commands : List Sent
polled_commands = record { command_id = "command"; kind = stop_data_plane; users = [] } ∷ []

abbrev pub first_command : Database → Command
first_command db = elim db.commands [ [] ↦ fixed_command "" "" stop_data_plane 0 | c ∷ _ ↦ c ]
