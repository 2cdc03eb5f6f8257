-- ===== src/Limits/Login/Tests.antt =====
-- The theorems on the limit on logins at concrete inputs.
use hysteria2_panel.Prelude.{
  ℕ, ◌≡◌, refl, ◌*◌, true, none, some, List, [], ◌∷◌, arith, select_all, str_eq,
}
use hysteria2_panel.Limits.Usage.{second}
use hysteria2_panel.Limits.Login.{
  Attempts, attempts_of, set_attempts, pop, recent_at, wait_after, is_allowed, retry_after,
  oldest_of, record_failure, Call, authenticate, authenticate_all,
}
use hysteria2_panel.Limits.Login.Bounds.{Bounded, login_table_stays-Bounded}
use hysteria2_panel.Limits.Login.Log.{in_order, never_full, answers_of_log, login_follows_log}
use hysteria2_panel.Limits.Login.Waits.{waiting_is_enough}

abbrev guess : ℕ → Call
guess at = record { now = at * second; address = "192.0.2.1"; slot_is_free = true; verified = none }

abbrev login : ℕ → Call
login at = record {
  now = at * second;
  address = "192.0.2.1";
  slot_is_free = true;
  verified = some "admin";
}

-- The password is right at the sixth attempt, which comes too early, and at the seventh.
abbrev calls : List Call
calls =
    guess 1000 ∷ guess 1001 ∷ guess 1002 ∷ guess 1003 ∷ guess 1004 ∷ login 1005 ∷ login 1900 ∷ []

abbrev five_failures : Attempts
five_failures =
    (
      "192.0.2.1",
      1000 * second ∷ 1001 * second ∷ 1002 * second ∷ 1003 * second ∷ 1004 * second ∷ [],
    )
    ∷ []

five_failures-Bounded : Bounded five_failures
five_failures-Bounded = record { size = omega arith; entries = ((omega arith, omega arith), tt) }

login_table_stays-Bounded_example : Bounded (authenticate_all calls five_failures).1
login_table_stays-Bounded_example =
    login_table_stays-Bounded calls five_failures five_failures-Bounded

login_follows_log_example : (authenticate_all calls []).0 ≡ answers_of_log calls (λ _. [])
unfolding in_order never_full authenticate record_failure recent_at attempts_of set_attempts pop
    oldest_of wait_after select_all str_eq
login_follows_log_example = login_follows_log calls refl refl

-- At 1005 seconds, the address has to wait for 895 seconds.
waiting_is_enough_example :
    is_allowed (1900 * second) "192.0.2.1" (retry_after (1005 * second) "192.0.2.1" five_failures).1
    ≡ true
unfolding recent_at attempts_of wait_after select_all str_eq
waiting_is_enough_example =
    waiting_is_enough (1005 * second) (1900 * second) "192.0.2.1" five_failures
      five_failures-Bounded (omega arith)
