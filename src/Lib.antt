-- ===== src/Lib.antt =====
-- Hysteria2-panel keeps the users, the nodes and the traffic of a fleet of Hysteria 2 servers. The
-- panel is one Python program, hysteria2_panel.py with the package hy2panel, over one SQLite
-- database; each node runs an agent that registers, reports and carries out commands. This library
-- models the control plane of the nodes: the transactions of `class Database` of hysteria2_panel.py
-- by which a node is announced, registers, is verified, gets its data plane, enters DNS, drains,
-- stops, resumes, is archived, is disconnected and is deleted, with the requests by which its agent
-- takes part; the transactions on accounts, and the accounting of their traffic, which kick an account
-- from all nodes when it is disabled, deleted, due or over its limit; the collector that samples the
-- panel's own servers; and the limits on requests and on changes of the database.
--
-- How code and model correspond. A table is the list of its rows in the order of their rowid
-- (Nodes/Row, Nodes/Database), a row is a record with the columns that the modelled code reads or
-- writes, and the SQL statements are the functions of Prelude/Table. A transaction is a function
-- from the tables to a result: the value and the new tables, or the exception, after which SQLite
-- rolls back and the caller keeps the old tables (Prelude/Raise). Where the code turns an exception
-- into `False` or `None`, so does the model. Numbers are native natural numbers: all times and
-- counts are non-negative, and a difference of times stops at 0, which compares with them as the
-- negative number of the code does. A local time in the first eight hours of 1970 stops at the same 0,
-- and sums above 2^63 - 1, which SQLite turns into floating-point numbers, stay exact. A date is the
-- number of its day (Prelude/Calendar). A random id (`uuid.uuid4().hex`) is an argument, and where a
-- transaction draws several, a function from their number. Code of other packages is a parameter: the
-- canonical form of an IP address (ipaddress), the fingerprint of a public key, the digest of a token,
-- the keyed digests of a token and of a deleted account's name, and `str.casefold`, by which the names
-- of a kick are sorted.
--
-- The files:
--   Prelude            texts and their patterns, tables and keys, results, the size of JSON, dates
--   Nodes/Row          the rows of the tables; Nodes/UsageRows those of the accounting; Nodes/Database
--                      the tables, exceptions and shared statements
--   Nodes/Nonce        _consume_node_request_nonce and the nonces of the heartbeat
--   Nodes/Enrollment   revoke_node_enrollment, consume_node_enrollment; Enrollment/Announcement
--                      create_node_enrollment
--   Nodes/Admission    verify_node, revoke_node, accept_node_heartbeat, set_node_policy_state,
--                      mark_node_direct_canary_passed, mark_node_dns_admitted,
--                      remove_node_dns_admission
--   Nodes/Bootstrap    create_data_plane_bootstrap_grant, fetch_data_plane_bootstrap,
--                      data_plane_bootstrap_requires_canary, acknowledge_data_plane_bootstrap
--   Nodes/Online       accept_node_online_snapshot
--   Nodes/Authorization  authorize_distributed_node with _pending_security_kick; in
--                      Authorization/Local authorize_local_participant
--   Nodes/Lifecycle    begin_node_drain, request_node_stop, request_node_resume,
--                      archive_stopped_node, request_node_disconnect, delete_node_pairing
--   Nodes/Commands     queue_node_command, ack_node_command; Commands/Delivery poll_node_commands
--   Nodes/Kicks        _queue_kick_users_on_ready_nodes; Kicks/Reach whom a kick reaches
--   Nodes/BudgetDrain  confirm_node_budget_dns_removed, reconcile_node_budgets; BudgetDrain/Due when a
--                      node is stopped, Turns one turn of the loop, Stops the whole of it
--   Nodes/Invariant    what every transaction keeps, with a file of proofs for each of the above
--   Nodes/Requests     the transactions as requests, and the tables that requests reach; Nodes/Reach
--                      what holds of those
--   Nodes/Tests        the theorems at concrete inputs
--   Users              create_proxy_user, set_proxy_user_enabled, rotate_proxy_token,
--                      delete_proxy_user; Users/Limits update_proxy_user_limits,
--                      Limits/Written what it leaves
--   Users/Traffic      reset_proxy_user_traffic, reset_group_traffic, reset_all_traffic,
--                      _reset_monthly_traffic_if_due, and _set_user_used_traffic, with its proofs in
--                      Users/Quota
--   Users/Expiry       expire_proxy_users; Expiry/Kicked what it disables and kicks
--   Users/Tests        the theorems at concrete inputs
--   Traffic            _record_usage_origin_traffic
--   Traffic/Batches    apply_traffic_batch; Traffic/NodeBatches apply_node_traffic_batch
--   Traffic/Keeps      what accounting leaves alone; Traffic/Replays batches that arrive again;
--                      Traffic/Crossings accounts that reach their limit; Traffic/Totals the totals of
--                      the machines, Totals/Local after a batch of the panel and Totals/Nodes after a
--                      report of a node
--   Traffic/Budgets    set_origin_budget, get_origin_budget, list_origin_budgets, with budget_period and
--                      budget_result of hy2panel/budgets.py; Budgets/Periods, Listing, ByHand and Late
--                      their proofs, and Budgets/Tests the theorems at concrete inputs
--   Traffic/Collector  LocalCumulativeCollector of hy2panel/accounting.py, over the interface of
--                      Collector/Ledger, which Collector/Panel fills with the database by
--                      _apply_local_traffic_batch; Collector/Samples what a round of samples counts,
--                      Crashes and Completion what a collection leaves; Traffic/Tests and Collector/Tests have the
--                      theorems at concrete inputs
--   Limits/Usage       UserUsageRateLimiter, whose windows are a list with unique keys and whose
--                      clock counts microseconds
--   Limits/Gate        begin_mutation, finish_mutation, begin_maintenance and finish_maintenance;
--                      Gate/Exclusion has the threads that call them,
--                      and Gate/Drain the loop of begin_maintenance
--   Limits/Login       LoginRateLimiter, on the same clock; Login/Lookups its table, Login/Bounds its
--                      size, Login/Log the failures that it stands for, Login/Waits how long to wait;
--                      Login/Tests has the theorems at concrete inputs
--   Limits/Tests       the theorems at concrete inputs
--
-- The loops of the code run over lists and are structural recursions here, so no fuel is needed. The
-- transactions are serialised by BEGIN IMMEDIATE; an interleaving of callers is a list of requests. The
-- collector counts the durable writes that it makes before it dies, any number of them.
--
-- Not modelled: the records of domains that a traffic report can carry, the forecast of a budget,
-- subscriptions and sessions, the audit log, the web and mobile interfaces, the agent of a node,
-- backups and the installer; of the collector the reading of its journal and the call of systemctl.
-- These are input and output, presentation, or parts whose state the modelled transactions do not
-- read.
pub mod Prelude
pub mod Nodes
pub mod Users
pub mod Traffic
pub mod Limits
