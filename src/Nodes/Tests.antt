-- ===== src/Nodes/Tests.antt =====
-- The theorems on the node control plane at concrete inputs.
mod Places
mod Draining
mod Scenario
use hysteria2_panel.Prelude.{
  ◌≡◌, refl, true, false, some, none, if◌then◌else◌, not, ◌&&◌, ◌||◌, [], ◌∷◌, ok, err, arith, ◌≤◌,
  ◌*◌, ◌⊎◌, length, str_eq, select, update, delete, row_count, sum_where, select_all, is_null,
  is_set, ltb, json_joined, json_text, json_number, hex_text, strip, version, name_text,
}
use hysteria2_panel.Nodes.Row.{
  is_stopping, is_starting, is_disconnecting, is_stop, is_start, is_uninstall, is_admitted,
  is_stopped,
}
use hysteria2_panel.Nodes.Database.{Database, Error, node_is, insert_command}
use hysteria2_panel.Nodes.Nonce.{
  consume_row, consume_request_nonce, consume_heartbeat_nonce, keep_newest,
}
use hysteria2_panel.Nodes.Enrollment.{Registration, usable, consume_node_enrollment}
use hysteria2_panel.Nodes.Enrollment.Announcement.{create_node_enrollment}
use hysteria2_panel.Nodes.Admission.{
  actor_ok, admissible_node, dns_may_admit, accept_node_heartbeat, set_node_policy_state,
}
use hysteria2_panel.Nodes.Lifecycle.{begin_node_drain, request_node_stop}
use hysteria2_panel.Nodes.Bootstrap.{create_grant, fetch_bootstrap}
use hysteria2_panel.Nodes.Bootstrap.Ack.{acknowledge_bootstrap}
use hysteria2_panel.Nodes.Online.{accept_node_online_snapshot, take_snapshot, store_snapshot}
use hysteria2_panel.Nodes.Nonce.Replay.{serve, nonce_replay}
use hysteria2_panel.Nodes.Online.{online_nonce}
use hysteria2_panel.Nodes.Lifecycle.Guards.{IsStoppable, stop_is_guarded}
use hysteria2_panel.Nodes.Commands.{command_of, complete_command, ack_node_command}
use hysteria2_panel.Nodes.Commands.Delivery.{
  deliver, due, mark_delivered, superseded, sent_of, response_size, poll_node_commands,
}
use hysteria2_panel.Nodes.Commands.Acks.{
  IsEnded, SameButNonces, ack_ends_waiting, ack_again_changes_nothing,
}
use hysteria2_panel.Nodes.Commands.Polls.{poll_is_bounded}
use hysteria2_panel.Nodes.Enrollment.Retry.{repeats, used_enrollment_answers}
use hysteria2_panel.Nodes.Admission.Dns.{IsStoppedInDns, stopped_node_is_admitted}
use hysteria2_panel.Nodes.Requests.{commit, run}
use hysteria2_panel.Nodes.Reach.{Reaches-Consistent, run-Consistent}
use hysteria2_panel.Nodes.Reach.Safety.{admitted_in_service, is_serving, waiting_has_command}
use hysteria2_panel.Nodes.Invariant.{Consistent, awaits}
use hysteria2_panel.Nodes.Tests.Scenario.{
  same, verbatim, node, token, digest, snapshot, registration, r_stop, announced, announced-Reached,
  enabled, stopping, enabled-Reached, stopping-Reached, admitted, draining_database, quiet,
  stopped_now, admitted-Reached, first_node, first_enrollment, acked_twice, polled, polled_commands,
  first_command,
}

run-Consistent_example : Consistent stopping
run-Consistent_example =
    run-Consistent same same verbatim same verbatim verbatim r_stop enabled
      (Reaches-Consistent same same verbatim same verbatim verbatim enabled enabled-Reached)

stopping_here : select (node_is node) stopping.nodes ≡ some (first_node stopping)
unfolding run select request_node_stop hex_text name_text set_node_policy_state update
    accept_node_heartbeat version consume_heartbeat_nonce row_count consume_node_enrollment
    create_node_enrollment str_eq consume_row insert_command
stopping_here = refl

admitted_here : select (node_is node) admitted.nodes ≡ some (first_node admitted)
unfolding run select hex_text name_text update version row_count str_eq delete consume_row
    keep_newest insert_command consume_request_nonce consume_heartbeat_nonce create_node_enrollment
    consume_node_enrollment accept_node_heartbeat set_node_policy_state request_node_stop
    create_grant fetch_bootstrap acknowledge_bootstrap accept_node_online_snapshot begin_node_drain
    ack_node_command complete_command sum_where poll_node_commands deliver due response_size
    mark_delivered superseded sent_of strip actor_ok take_snapshot store_snapshot select_all
admitted_here = refl

admitted_is : is_admitted (first_node admitted).data_plane_state ≡ true
unfolding run select hex_text name_text update version row_count str_eq delete consume_row
    keep_newest insert_command consume_request_nonce consume_heartbeat_nonce create_node_enrollment
    consume_node_enrollment accept_node_heartbeat set_node_policy_state request_node_stop
    create_grant fetch_bootstrap acknowledge_bootstrap accept_node_online_snapshot begin_node_drain
    ack_node_command complete_command sum_where poll_node_commands deliver due response_size
    mark_delivered superseded sent_of strip actor_ok take_snapshot store_snapshot select_all
admitted_is = refl

first_use : consume_row (online_nonce snapshot token) [] ≡ ok (online_nonce snapshot token ∷ [])
unfolding run consume_row row_count keep_newest delete str_eq
first_use = refl

quiet_stopped :
    request_node_stop "command" node "admin" 1034 true false 43 draining_database
    ≡ ok (first_command quiet, quiet)
unfolding run request_node_stop hex_text name_text select str_eq sum_where row_count insert_command
quiet_stopped = refl

quiet_command : select (command_of "command" node) quiet.commands ≡ some (first_command quiet)
unfolding run select request_node_stop hex_text name_text str_eq sum_where row_count insert_command
quiet_command = refl

quiet_here : select (node_is node) quiet.nodes ≡ some (first_node quiet)
unfolding run select request_node_stop hex_text name_text str_eq sum_where row_count insert_command
    update
quiet_here = refl

quiet_pending : is_null (first_command quiet).acked_at ≡ true
unfolding run request_node_stop hex_text name_text select str_eq sum_where row_count insert_command
quiet_pending = refl

quiet_acked : ack_node_command node "command" true "" token 1036 quiet ≡ ok (true, stopped_now)
unfolding run ack_node_command consume_request_nonce row_count request_node_stop hex_text name_text
    select str_eq sum_where insert_command update consume_row
quiet_acked = refl

acked_command :
    select (command_of "command" node) stopped_now.commands ≡ some (first_command stopped_now)
unfolding run select ack_node_command consume_request_nonce row_count request_node_stop hex_text
    name_text str_eq sum_where insert_command update consume_row complete_command delete
acked_command = refl

acked_before : is_set (first_command stopped_now).acked_at ≡ true
unfolding run ack_node_command consume_request_nonce row_count request_node_stop hex_text name_text
    select str_eq sum_where insert_command update consume_row complete_command delete
acked_before = refl

acked_again :
    ack_node_command node "command" false "FAILED" digest 1037 stopped_now ≡ ok (true, acked_twice)
unfolding run ack_node_command consume_request_nonce row_count request_node_stop hex_text name_text
    select str_eq sum_where insert_command update consume_row complete_command keep_newest delete
acked_again = refl

polled_stop : poll_node_commands node token 1041 stopping ≡ ok (polled_commands, polled)
unfolding run select hex_text name_text update version row_count str_eq delete consume_row
    keep_newest insert_command consume_request_nonce consume_heartbeat_nonce create_node_enrollment
    consume_node_enrollment accept_node_heartbeat set_node_policy_state request_node_stop
    create_grant fetch_bootstrap acknowledge_bootstrap accept_node_online_snapshot begin_node_drain
    ack_node_command complete_command sum_where poll_node_commands deliver due response_size
    mark_delivered superseded sent_of strip actor_ok take_snapshot store_snapshot select_all
    json_joined json_text json_number
polled_stop = refl

admit_valid : (hex_text 32 node && actor_ok "admin" && ltb 0 1040) ≡ true
unfolding run select hex_text name_text update version row_count str_eq delete consume_row
    keep_newest insert_command consume_request_nonce consume_heartbeat_nonce create_node_enrollment
    consume_node_enrollment accept_node_heartbeat set_node_policy_state request_node_stop
    create_grant fetch_bootstrap acknowledge_bootstrap accept_node_online_snapshot begin_node_drain
    ack_node_command complete_command sum_where poll_node_commands deliver due response_size
    mark_delivered superseded sent_of strip actor_ok take_snapshot store_snapshot select_all
admit_valid = refl

stopped_here : select (node_is node) stopped_now.nodes ≡ some (first_node stopped_now)
unfolding run select ack_node_command consume_request_nonce row_count request_node_stop hex_text
    name_text str_eq sum_where insert_command update consume_row complete_command
stopped_here = refl

stopped_one : row_count (admissible_node node 997) stopped_now.nodes ≡ 1
unfolding run row_count ack_node_command consume_request_nonce request_node_stop hex_text name_text
    select str_eq sum_where insert_command update consume_row complete_command
stopped_one = refl

stopped_state : is_stopped (first_node stopped_now).lifecycle_state ≡ true
unfolding run ack_node_command consume_request_nonce row_count request_node_stop hex_text name_text
    select str_eq sum_where insert_command update consume_row complete_command
stopped_state = refl

stopped_ready : dns_may_admit 997 (first_node stopped_now) ≡ true
unfolding run ack_node_command consume_request_nonce row_count request_node_stop hex_text name_text
    select str_eq sum_where insert_command update consume_row complete_command
stopped_ready = refl

admitted_in_service_example : is_serving (first_node admitted) ≡ true
admitted_in_service_example =
    admitted_in_service same same verbatim same verbatim verbatim admitted admitted-Reached node
      (first_node admitted) admitted_here admitted_is

waiting_has_command_example :
    ((not (is_stopping (first_node stopping).lifecycle_state)
        || awaits is_stop node stopping.commands)
      && (not (is_starting (first_node stopping).lifecycle_state)
          || awaits is_start node stopping.commands)
      && (not (is_disconnecting (first_node stopping).lifecycle_state)
          || awaits is_uninstall node stopping.commands))
    ≡ true
waiting_has_command_example =
    waiting_has_command same same verbatim same verbatim verbatim stopping stopping-Reached node
      (first_node stopping) stopping_here

nonce_replay_example :
    consume_row
      (online_nonce (record snapshot { accepted_at = 1100 }) token)
      (serve [] (online_nonce snapshot token ∷ []))
    ≡ err Error.integrity_error
nonce_replay_example =
    nonce_replay (online_nonce snapshot token) [] [] (online_nonce snapshot token ∷ []) 1100 tt
      first_use tt (omega arith)

stop_is_guarded_example : IsStoppable node 1034 true 43 draining_database
stop_is_guarded_example =
    stop_is_guarded "command" node "admin" 1034 true 43 draining_database quiet
      (first_command quiet) quiet_stopped

ack_ends_waiting_example : IsEnded node (first_command quiet) (first_node quiet) stopped_now
ack_ends_waiting_example =
    ack_ends_waiting node "command" "" token 1036 quiet stopped_now (first_command quiet)
      (first_node quiet) true quiet_command quiet_here quiet_pending quiet_acked

ack_again_changes_nothing_example : SameButNonces stopped_now acked_twice
ack_again_changes_nothing_example =
    ack_again_changes_nothing node "command" "FAILED" digest false 1037 stopped_now acked_twice
      (first_command stopped_now) true acked_command acked_before acked_again

poll_is_bounded_example :
    (length polled_commands ≤ 32)
    × ((polled_commands ≡ []) ⊎ (response_size polled_commands 1041 ≤ 64 * 1024))
poll_is_bounded_example =
    poll_is_bounded node token 1041 stopping polled polled_commands polled_stop

abbrev enrolled : Database
enrolled = commit announced (consume_node_enrollment token registration 1010 announced)

abbrev other_key : Registration
other_key = record registration { public_key = "other" }

announced_enrollment :
    select (λ x. str_eq x.token_digest token) announced.enrollments
    ≡ some (first_enrollment announced)
unfolding run create_node_enrollment select str_eq row_count
announced_enrollment = refl

announced_unused : (first_enrollment announced).consumed_at ≡ none
unfolding run create_node_enrollment row_count str_eq
announced_unused = refl

first_registration :
    consume_node_enrollment token registration 1010 announced ≡ ok (some node, enrolled)
unfolding run create_node_enrollment row_count consume_node_enrollment usable select str_eq update
first_registration = refl

used_enrollment_answers_example :
    consume_node_enrollment token other_key 1500 enrolled
    ≡ ok (
      if ltb 1500 (first_enrollment announced).expires_at && repeats registration other_key
          then some node
          else none,
      enrolled,
    )
used_enrollment_answers_example =
    used_enrollment_answers token registration other_key 1010 1500 (first_enrollment announced)
      announced enrolled node
      (Reaches-Consistent same same verbatim same verbatim verbatim announced announced-Reached)
      announced_enrollment announced_unused first_registration

stopped_node_is_admitted_example : IsStoppedInDns node "admin" 1040 stopped_now
stopped_node_is_admitted_example =
    stopped_node_is_admitted node "admin" 1040 stopped_now (first_node stopped_now) admit_valid
      stopped_here stopped_one stopped_state stopped_ready
