-- ===== src/Nodes/BudgetDrain/Due.antt =====
-- When a node that has used up its budget is stopped, and what the rows of the nodes show of it.
use hysteria2_panel.Prelude.{
  ℕ, ◌≡◌, Bool, true, false, not, ◌&&◌, ◌||◌, Option, some, arith, if◌then◌else◌, is_null,
}
use hysteria2_panel.Nodes.Row.{Node, is_draining}
use hysteria2_panel.Nodes.Database.{Database}
use hysteria2_panel.Nodes.Lifecycle.{agent_at_least}
use hysteria2_panel.Nodes.BudgetDrain.{
  by_budget, is_over, is_idle, checked_lately, has_waited, still_idle, may_stop,
}
use hysteria2_panel.Traffic.Budgets.{BudgetResult}

-- The node was set to drain because of its budget, of which 95 percent are still used; its removal
-- from DNS was confirmed at least a day ago; its row says that it has been idle for 15 minutes or
-- more, by a check at most a minute ago, and it is idle now. Its agent knows the command.
abbrev pub stop_is_due : ℕ → Node → BudgetResult → Database → Bool
stop_is_due now n b db =
    is_over b
    && by_budget n
    && is_draining n.lifecycle_state
    && has_waited now 86400 n.budget_dns_confirmed_at
    && has_waited now 900 n.budget_idle_since
    && checked_lately now n.budget_checked_at
    && is_idle now n db
    && agent_at_least (0, 39, 19) n.agent_version

-- A node that has just been seen idle has not waited.
waited_before :
    (now : ℕ) (restart : Bool) (since : Option ℕ)
    → has_waited now 900 (if restart then some now else since) ≡ true
    → (not restart && has_waited now 900 since) ≡ true
waited_before now true since h = absurd (ground (arith, h))
waited_before now false since h = h

and_first : (a b c : Bool) → (a && b && c) ≡ true → a ≡ true
and_first a b c h = ground arith

and_last : (a b c : Bool) → (a && b && c) ≡ true → (b && c) ≡ true
and_last a b c h = ground arith

-- A stop is asked only after what was seen before this check.
pub may_stop-waited :
    (now : ℕ) (idle : Bool) (n : Node)
    → may_stop now (still_idle now idle n) n ≡ true
    → (idle
        && has_waited now 900 n.budget_idle_since
        && has_waited now 86400 n.budget_dns_confirmed_at
        && checked_lately now n.budget_checked_at
        && agent_at_least (0, 39, 19) n.agent_version)
      ≡ true
may_stop-waited now false n h = absurd (cc)
may_stop-waited now true n h =
    let restart = is_null n.budget_idle_since || not (checked_lately now n.budget_checked_at) in
    let before = waited_before now restart n.budget_idle_since (and_first _ _ _ h) in
    ground (
      arith,
      before,
      and_last (has_waited now 900 (if restart then some now else n.budget_idle_since))
          (has_waited now 86400 n.budget_dns_confirmed_at)
          (agent_at_least (0, 39, 19) n.agent_version) h,
    )
