-- ===== src/Nodes/Tests/Places.antt =====
-- The theorems on the authorization of connections at concrete inputs.
use hysteria2_panel.Prelude.{
  nocase_eq, max, ℕ, ◌≡◌, refl, String, true, false, some, none, [], ◌∷◌, ok, ◌≤◌, str_eq, select,
  row_count, sum_where,
}
use hysteria2_panel.Nodes.Row.{standard, User}
use hysteria2_panel.Nodes.Database.{Database}
use hysteria2_panel.Nodes.Nonce.{consume_row, consume_request_nonce}
use hysteria2_panel.Nodes.Bootstrap.Ack.{canary_user}
use hysteria2_panel.Nodes.Authorization.{Verdict, places, authorize, authorize_distributed_node}
use hysteria2_panel.Nodes.Authorization.Capacity.{authorization_keeps_limit}
use hysteria2_panel.Nodes.Authorization.Local.{
  authorize_local_participant, local_authorization_keeps_limit,
}
use hysteria2_panel.Nodes.Requests.{Request, run}
use hysteria2_panel.Nodes.Tests.Scenario.{
  node, token, same, verbatim, do_request, draining_database,
}

-- A user with two devices, one of them on the panel's server
abbrev user : User
user = record {
  id = 1;
  name = "alice";
  enabled = true;
  generation = 1;
  user_type = 0;
  token_fingerprint = "secret";
  starts_at = none;
  expires_at = none;
  device_limit = 2;
  traffic_limit_bytes = 1000;
  tx_bytes = 10;
  rx_bytes = 10;
  allow_udp_443 = true;
  traffic_adjusted_at = none;
  domain_usage_reset_at = none;
  local_drain_started_at = none;
  created_at = 1000;
  updated_at = 1000;
}

abbrev one_online : String → ℕ
one_online _ = 1

abbrev active_database : Database
active_database = record draining_database { users = user ∷ [] }

abbrev r_authorize : Request
r_authorize = Request.authorize_remote one_online node "request" "decision" "secret" token 1030 43

abbrev r_local : Request
r_local = Request.authorize_local one_online "lease" "alice" 1030 43 5

abbrev verdict : Verdict
verdict = record { allowed = true; id = some "alice"; decision_id = "decision"; expires_at = 1073 }

authorized :
    authorize_distributed_node same verbatim one_online node "request" "decision" "secret" token
      1030 43 active_database
    ≡ ok (verdict, do_request r_authorize active_database)
unfolding run authorize_distributed_node consume_request_nonce row_count str_eq consume_row select
    authorize sum_where
authorized = refl

let_in :
    authorize_local_participant one_online "lease" "alice" 1030 43 5 active_database
    ≡ ok (true, do_request r_local active_database)
unfolding run authorize_local_participant sum_where row_count str_eq select nocase_eq places
let_in = refl

other_name : nocase_eq canary_user "alice" ≡ false
unfolding nocase_eq
other_name = refl

authorization_keeps_limit_example :
    places standard one_online "alice" 1030 (do_request r_authorize active_database)
    ≤ max (places standard one_online "alice" 1030 active_database) 2
authorization_keeps_limit_example =
    authorization_keeps_limit same verbatim one_online node "request" "decision" "secret" token 1030
      43 user active_database (do_request r_authorize active_database) verdict (λ _. refl, tt)
      other_name authorized

local_authorization_keeps_limit_example :
    places standard one_online "alice" 1030 (do_request r_local active_database)
    ≤ max (places standard one_online "alice" 1030 active_database) 2
local_authorization_keeps_limit_example =
    local_authorization_keeps_limit one_online "lease" "alice" 1030 43 5 user active_database
      (do_request r_local active_database) true (λ _. refl, tt) let_in
