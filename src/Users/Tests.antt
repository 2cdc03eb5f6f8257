-- ===== src/Users/Tests.antt =====
-- The theorems on accounts at concrete inputs.
use hysteria2_panel.Prelude.{
  ℕ, zero, suc, ◌/◌, ◌%◌, ◌==◌, if◌then◌else◌, append, All, ◌≡◌, refl, String, true, false, some,
  none, List, [], ◌∷◌, ok, err, arith, select, select_all, update, row_count, sum_where, str_eq,
  nocase_eq, name_text, str_le,
}
use hysteria2_panel.Nodes.Row.{Node, User, standard, pending_verification, protocol_ready}
use hysteria2_panel.Nodes.UsageRows.{OriginUser}
use hysteria2_panel.Nodes.Database.{Database, Error, empty_database, insert_command}
use hysteria2_panel.Nodes.Enrollment.Announcement.{new_node}
use hysteria2_panel.Nodes.Kicks.{
  contains, distinct, sorted_by, insert_by, chunks_from, kick_chunks, kick_nodes, kick_sorted,
  queue_kick_users, all_name_texts,
}
use hysteria2_panel.Nodes.Requests.{commit}
use hysteria2_panel.Users.{user_is, new_user, get_proxy_user, limits_ok}
use hysteria2_panel.Users.Limits.{
  Change, changed_row, kick_if, kick_changed, update_proxy_user_limits,
}
use hysteria2_panel.Users.Traffic.{set_user_used_traffic, shared_tx, share_used}
use hysteria2_panel.Users.Quota.{IsSetTo, Attributed, used_is_set_exactly, attribution_is_kept}
use hysteria2_panel.Users.Expiry.{expire_proxy_users}
use hysteria2_panel.Users.Expiry.Kicked.{
  ExpiryEnforced, after_runs, expired_are_kicked, too_many_expired_stay_enabled,
}

abbrev alice : User
alice = record (new_user 1 "alice" "secret" 2 1000 true 0 (some 1500) none 1000) {
  tx_bytes = 300;
  rx_bytes = 100;
}

abbrev credited : OriginUser
credited = record {
  origin_id = "local";
  user_name = "alice";
  tx_bytes = 200;
  rx_bytes = 100;
  updated_at = 1000;
}

abbrev ready_node : Node
ready_node = record (new_node "tokyo" "tokyo" none 0 standard "" "" 0 0 false) {
  status = pending_verification;
  verified_at = some 1000;
  policy_state = protocol_ready;
}

abbrev database : Database
database = record empty_database {
  users = alice ∷ [];
  origin_users = credited ∷ [];
  nodes = ready_node ∷ [];
}

abbrev same : String → String
same s = s

abbrev ids : ℕ → String
ids _ = "command"

abbrev lowered : Change
lowered = record {
  device_limit = 3;
  traffic_limit_bytes = 500;
  allow_udp_443 = none;
  used_traffic_bytes = some 77;
  expires_at = some none;
  starts_at = none;
}

-- 77 of 400 bytes, in the ratio of the directions
abbrev lowered_alice : User
lowered_alice = record (changed_row lowered 2000 alice) {
  traffic_adjusted_at = some 2000;
  tx_bytes = 57;
  rx_bytes = 20;
}

abbrev lowered_database : Database
lowered_database =
    commit database (update_proxy_user_limits same ids 1 lowered (some 0) 2000 database)

lowered_result :
    update_proxy_user_limits same ids 1 lowered (some 0) 2000 database
    ≡ ok (lowered_alice, lowered_database)
unfolding update_proxy_user_limits get_proxy_user limits_ok select update set_user_used_traffic
    shared_tx share_used kick_changed kick_if
lowered_result = refl

used_is_set_exactly_example :
    (u : User) × (select (user_is 1) database.users ≡ some u)
    × (select (user_is 1) lowered_database.users ≡ some lowered_alice)
    × IsSetTo 77 2000 lowered u lowered_alice
used_is_set_exactly_example =
    used_is_set_exactly same ids 1 lowered (some 0) 2000 database lowered_database lowered_alice
      lowered_result 77 refl

attribution_is_kept_example :
    (select (user_is 1) lowered_database.users ≡ some lowered_alice)
    × Attributed lowered_alice lowered_database.origin_users
unfolding select sum_where nocase_eq
attribution_is_kept_example =
    attribution_is_kept same ids 1 lowered (some 0) 2000 database lowered_database lowered_alice
      lowered_result alice refl (omega arith, omega arith)

abbrev expired_database : Database
expired_database = commit database (expire_proxy_users same ids 2000 database)

expired_are_kicked_example : ExpiryEnforced 2000 "tokyo" "alice" expired_database
unfolding expire_proxy_users queue_kick_users kick_sorted distinct kick_nodes kick_chunks
    chunks_from select_all update row_count contains insert_command str_eq sorted_by name_text
    insert_by str_le all_name_texts
expired_are_kicked_example =
    expired_are_kicked same ids 2000 database "tokyo" "alice" ("alice" ∷ []) expired_database refl
      refl refl

-- 1001 accounts with ids of their own, and names and tokens of four digits
unfoldable digit : ℕ → String
digit zero = "0"
digit (suc zero) = "1"
digit (suc (suc zero)) = "2"
digit (suc (suc (suc zero))) = "3"
digit (suc (suc (suc (suc zero)))) = "4"
digit (suc (suc (suc (suc (suc zero))))) = "5"
digit (suc (suc (suc (suc (suc (suc zero)))))) = "6"
digit (suc (suc (suc (suc (suc (suc (suc zero))))))) = "7"
digit (suc (suc (suc (suc (suc (suc (suc (suc n)))))))) = if n == 0 then "8" else "9"

unfoldable four_digits : ℕ → String
unfolding digit
four_digits n =
    append (digit (n / 1000))
      (append (digit (n / 100 % 10)) (append (digit (n / 10 % 10)) (digit (n % 10))))

abbrev numbered : ℕ → User
numbered n = record alice { id = n; name = four_digits n; token_fingerprint = four_digits n }

abbrev many : ℕ → List User
many zero = []
many (suc n) = numbered (suc n) ∷ many n

abbrev crowded : Database
crowded = record empty_database { users = many 1001 }

four_digits_of_id : four_digits 1001 ≡ "1001"
unfolding four_digits append
four_digits_of_id = refl

too_many_expired_stay_enabled_example :
    All
      (λ at. expire_proxy_users same ids at crowded ≡ err Error.invalid_request)
      (2000 ∷ 3000 ∷ [])
    × (after_runs same ids (2000 ∷ 3000 ∷ []) crowded ≡ crowded)
unfolding row_count
too_many_expired_stay_enabled_example =
    too_many_expired_stay_enabled same ids 2000 (2000 ∷ 3000 ∷ []) crowded (omega arith)
      (omega arith, (omega arith, tt))
