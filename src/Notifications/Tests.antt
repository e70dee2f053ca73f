-- ===== src/Notifications/Tests.antt =====
-- Three accounts, one of them a super administrator, and the theorems at concrete inputs.
use flowdeck_backend.Base.{
  String, [], codes, concat, count, filter, none, refl, some, ℕ, ◌+◌, ◌∷◌, ◌≡◌,
}
use flowdeck_backend.Models.{
  AccountStatus, Db, Notification, NotificationDraft, NotificationType, SystemRole, User, empty_db,
  list_models,
}
use flowdeck_backend.Notifications.{
  actor_name, deliver, deliver_to, emit_all, inboxes_of, insert_many, mark_all_read, preview,
  recipients_of, units,
}
use flowdeck_backend.Notifications.Inbox.{
  Delivered, deliver-Delivered, deliver-too_long, is_elsewhere, is_read_at, is_waiting,
  mark_all_read-reads,
}
use flowdeck_backend.Store.{UnlessRefused, err, modify, ok, pure, reads, unprocessable, ◌>>=◌}

abbrev account : ℕ → String → SystemRole → User
account id name role = record {
  id = id;
  name = name;
  email = "";
  password = "";
  role = role;
  avatar_url = none;
  status = AccountStatus.active;
  last_login_at = none;
  password_changed_at = none;
  token_version = 0;
}

abbrev start : Db list_models
start = record empty_db {
  users =
      account 1 "Ann" SystemRole.user
      ∷ account 2 "Bo" SystemRole.user
      ∷ account 3 "Root" SystemRole.super_admin
      ∷ [];
}

-- Ann acts, and Bo is named twice.
abbrev draft_with : String → NotificationDraft
draft_with message = record {
  recipients = 2 ∷ 1 ∷ 2 ∷ 3 ∷ [];
  workspace = 7;
  type = NotificationType.card_moved;
  message = message;
  body = some "  Plan  ";
  actor = some 1;
  entity_type = none;
  entity_id = none;
  link = none;
}

abbrev draft : NotificationDraft
draft = draft_with "moved a card"

abbrev sent : Notification
sent = record {
  id = 52;
  user = 2;
  workspace = 7;
  type = NotificationType.card_moved;
  title = "Ann moved a card";
  body = codes "Plan";
  entity_type = none;
  entity_id = none;
  actor = some 1;
  link = none;
  read_at = none;
}

deliver_runs : (deliver {m = list_models} (λ u. 50 + u) draft start).0 ≡ ok (sent ∷ [])
unfolding deliver ◌>>=◌ reads deliver_to inboxes_of recipients_of insert_many units actor_name
    concat modify emit_all pure preview
deliver_runs = refl

abbrev long_title : String
long_title =
    "moved \"aaaaaaaaaaaaaaaaaaaaaaaaaaaaaaaaaaaaaaaaaaaaaaaaaaaaaaaaaaaaaaaaaaaaaaaaaaaaaaaaaaaaaaaaaaaaaaaaaaaaaaaaaaaaaaaaaaaaaaaaaaaaaaaaaaaaaaaaaaaaaaaaaaaaaaaaaaaaaaaaaaaaaa\" to Done"

deliver-too_long_example :
    deliver {m = list_models} (λ u. 50 + u) (draft_with long_title) start
    ≡ (err (unprocessable "Request payload failed validation"), start)
unfolding units actor_name concat
deliver-too_long_example =
    deliver-too_long {m = list_models} (λ u. 50 + u) (draft_with long_title) 2 start refl refl

deliver-Delivered_example :
    UnlessRefused start
      (Delivered {m = list_models} draft start)
      (ok (sent ∷ []))
      (deliver {m = list_models} (λ u. 50 + u) draft start).1
unfolding deliver ◌>>=◌ reads deliver_to inboxes_of recipients_of insert_many units actor_name
    concat modify emit_all pure preview
deliver-Delivered_example = deliver-Delivered {m = list_models} (λ u. 50 + u) draft start

abbrev with_one : Db list_models
with_one = record start { notifications = sent ∷ [] }

mark_all_read-reads_example :
    ((mark_all_read {m = list_models} 9 2 none with_one).0 ≡ ok 1)
    × (count (is_waiting 2 none) (mark_all_read {m = list_models} 9 2 none with_one).1.notifications
        ≡ 0)
    × (filter
          (is_elsewhere 2 none)
          (mark_all_read {m = list_models} 9 2 none with_one).1.notifications
        ≡ filter (is_elsewhere 2 none) (sent ∷ []))
    × (filter (is_read_at 5) (mark_all_read {m = list_models} 9 2 none with_one).1.notifications
        ≡ filter (is_read_at 5) (sent ∷ []))
mark_all_read-reads_example = mark_all_read-reads {m = list_models} 9 5 2 none with_one refl
