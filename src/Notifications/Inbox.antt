-- ===== src/Notifications/Inbox.antt =====
-- src/services/notification.service.ts: what `deliver` stores and sends, and what reading does.
use mathlib.Core.List.{append-nil, append_assoc}
use flowdeck_backend.Base.{
  Bool, Bool-cases, List, Option, String, [], any, ap, arith, count, false, filter, if◌then◌else◌,
  inl, inr, length, ltb, map, map_where, none, not, refl, some, subst, sym, true, ℕ, ◌&&◌, ◌++◌,
  ◌==◌, ◌∙◌, ◌∷◌, ◌≡◌, ◌≤◌,
}
use flowdeck_backend.Models.{
  Db, Effect, Models, Notification, NotificationDraft, SocketEvent, cause,
}
use flowdeck_backend.Notifications.{
  actor_name, deliver, deliver_to, emit_all, inboxes_of, insert_many, is_in, is_unread_of,
  mark_all_read, new_notification, read, recipients_of, save_notification, save_notifications,
  title_limit, title_of, units,
}
use flowdeck_backend.Notifications.Recipients.{inbox-count, is_number, is_told}
use flowdeck_backend.Store.{
  Ensures, Ensures-gets, Ensures-pure, Exec, UnlessRefused, call-raises, call-returns, err,
  guard-eq, modify, ok, pure, reads, reads-returns, unprocessable, ◌>>=◌, ◌>>◌,
}

abbrev pub is_for : ℕ → Notification → Bool
is_for u n = n.user == u

abbrev pub is_long : Notification → Bool
is_long n = ltb title_limit (length (units n.title))

abbrev pub emission : Option String → Notification → Effect
emission name n = Effect.emit_to_user n.user (SocketEvent.notification_created n name)

count-new :
    (new_id : ℕ → ℕ) (draft : NotificationDraft) (title : String) (u : ℕ) (us : List ℕ)
    → count (is_for u) (map (new_notification new_id draft title) us) ≡ count (is_number u) us
count-new new_id draft title u [] = refl
count-new new_id draft title u (v ∷ us) = ground (arith, count-new new_id draft title u us)

all_long :
    (new_id : ℕ → ℕ) (draft : NotificationDraft) (title : String) (u : ℕ) (us : List ℕ)
    → any is_long (map (new_notification new_id draft title) (u ∷ us))
      ≡ ltb title_limit (length (units title))
all_long new_id draft title u [] = ground arith
all_long new_id draft title u (v ∷ us) = ground (arith, all_long new_id draft title v us)

abbrev pub is_waiting : ℕ → Option ℕ → Notification → Bool
is_waiting u ws n = is_unread_of u n && is_in ws n

waiting-none :
    (now u : ℕ) (ws : Option ℕ) (ns : List Notification)
    → count (is_waiting u ws) (map_where (is_waiting u ws) (read now) ns) ≡ 0
waiting-none now u ws [] = refl
waiting-none now u none (n ∷ ns) = ground (arith, waiting-none now u none ns)
waiting-none now u (some w) (n ∷ ns) = ground (arith, waiting-none now u (some w) ns)

-- A notification of another user, or of another workspace than the one asked for.
abbrev pub is_elsewhere : ℕ → Option ℕ → Notification → Bool
is_elsewhere u ws n = not (n.user == u && is_in ws n)

abbrev pub is_read_at : ℕ → Notification → Bool
is_read_at t n = elim n.read_at [ some s ↦ s == t | none ↦ false ]

read-kept :
    (now t u : ℕ) (ws : Option ℕ) (ns : List Notification)
    → (t == now) ≡ false
    → filter (is_read_at t) (map_where (is_waiting u ws) (read now) ns) ≡ filter (is_read_at t) ns
read-kept now t u ws [] d = refl
read-kept now t u none (n ∷ ns) d = ground (arith, d, read-kept now t u none ns)
read-kept now t u (some w) (n ∷ ns) d = ground (arith, d, read-kept now t u (some w) ns)

elsewhere-kept :
    (now u : ℕ) (ws : Option ℕ) (ns : List Notification)
    → filter (is_elsewhere u ws) (map_where (is_waiting u ws) (read now) ns)
      ≡ filter (is_elsewhere u ws) ns
elsewhere-kept now u ws [] = refl
elsewhere-kept now u none (n ∷ ns) = ground (arith, elsewhere-kept now u none ns)
elsewhere-kept now u (some w) (n ∷ ns) = ground (arith, elsewhere-kept now u (some w) ns)

module _ {m : Models} where
  unfoldable pub announced : Option String → List Notification → Db m → Db m
  announced name ns db = record db { effects = db.effects ++ map (emission name) ns }

  save-docs :
      (ns : List Notification) (db : Db m)
      → (m.notification.docs (save_notifications ns db).notifications
          ≡ m.notification.docs db.notifications ++ ns)
        × ((save_notifications ns db).effects ≡ db.effects)
  unfolding save_notifications
  save-docs [] db = (sym (append-nil (m.notification.docs db.notifications)), refl)
  save-docs (n ∷ ns) db =
      let (docs, effects) = save-docs ns (save_notification n db) in
      (
        docs
            ∙ ap (λ xs. xs ++ ns) (m.notification.docs-create n db.notifications)
            ∙ append_assoc (m.notification.docs db.notifications) (n ∷ []) ns,
        effects,
      )

  emit_all-announced :
      (name : Option String) (ns : List Notification) (db : Db m)
      → emit_all name ns db ≡ (ok tt, announced name ns db)
  unfolding emit_all announced pure modify
  emit_all-announced name [] db =
      ap (λ es. (ok tt, record db { effects = es })) (sym (append-nil db.effects))
  emit_all-announced name (n ∷ ns) db =
      let sent = record db { effects = db.effects ++ emission name n ∷ [] } in
      call-returns (cause (emission name n)) (λ _. emit_all name ns) db tt sent refl
      ∙ emit_all-announced name ns sent
      ∙ ap (λ es. (ok tt, record db { effects = es }))
          (append_assoc db.effects (emission name n ∷ []) (map (emission name) ns))

  insert_many-long :
      (ns : List Notification) (db : Db m)
      → any is_long ns ≡ true
      → insert_many ns db ≡ (err (unprocessable "Request payload failed validation"), db)
  unfolding insert_many
  insert_many-long ns db h = guard-eq (any is_long ns) _ _ db ∙ (rw h refl)

  insert_many-saves :
      (ns : List Notification) (db : Db m)
      → any is_long ns ≡ false
      → insert_many ns db ≡ (ok tt, save_notifications ns db)
  unfolding insert_many modify
  insert_many-saves ns db h = guard-eq (any is_long ns) _ _ db ∙ (rw h refl)

  -- The end of `deliver`.
  abbrev send : Option String → List Notification → Exec (Db m) (List Notification)
  send name ns = do insert_many ns; emit_all name ns; pure ns

  send-long :
      (name : Option String) (ns : List Notification) (db : Db m)
      → any is_long ns ≡ true
      → send name ns db ≡ (err (unprocessable "Request payload failed validation"), db)
  send-long name ns db h = call-raises (insert_many ns) _ db _ db (insert_many-long ns db h)

  send-saves :
      (name : Option String) (ns : List Notification) (db : Db m)
      → any is_long ns ≡ false
      → send name ns db ≡ (ok ns, announced name ns (save_notifications ns db))
  unfolding pure
  send-saves name ns db h =
      let saved = save_notifications ns db in
      call-returns (insert_many ns) _ db tt saved (insert_many-saves ns db h)
      ∙ call-returns (emit_all name ns) _ saved tt (announced name ns saved)
          (emit_all-announced name ns saved)

  send-outcome :
      (db : Db m) (name : Option String) (ns : List Notification)
      (P : List Notification → Db m → Type 0)
      → P ns (announced name ns (save_notifications ns db))
      → Ensures (UnlessRefused db P) (send name ns) db
  send-outcome db name ns P h = record {
    at = elim (Bool-cases (any is_long ns)) [
      | inl e ↦ subst (λ r. UnlessRefused db P r.0 r.1) (sym (send-long name ns db e)) refl
      | inr e ↦ subst (λ r. UnlessRefused db P r.0 r.1) (sym (send-saves name ns db e)) h
    ];
  }

  -- What a delivery leaves.
  abbrev pub Delivered : NotificationDraft → Db m → List Notification → Db m → Type 0
  Delivered draft db ns db' =
      ((u : ℕ) → count (is_for u) ns ≡ (if is_told draft db u then 1 else 0))
      × (m.notification.docs db'.notifications ≡ m.notification.docs db.notifications ++ ns)
      × (db'.effects ≡ db.effects ++ map (emission (actor_name draft.actor db)) ns)

  deliver_to-run :
      (new_id : ℕ → ℕ) (draft : NotificationDraft) (us : List ℕ) (db : Db m)
      → ((u : ℕ) → count (is_number u) us ≡ (if is_told draft db u then 1 else 0))
      → Ensures (UnlessRefused db (Delivered draft db)) (deliver_to new_id draft us) db
  unfolding deliver_to announced
  deliver_to-run new_id draft [] db h =
      Ensures-pure (UnlessRefused db (Delivered draft db)) [] db
        (h, sym (append-nil (m.notification.docs db.notifications)), sym (append-nil db.effects))
  deliver_to-run new_id draft (u ∷ us) db h =
      let name = actor_name draft.actor db in
      let title = title_of name draft.message in
      let ns = map (new_notification new_id draft title) (u ∷ us) in
      let (docs, effects) = save-docs ns db in
      Ensures-gets (UnlessRefused db (Delivered draft db)) _ _ db (
        send-outcome db (actor_name draft.actor db)
          (map (new_notification new_id draft (title_of (actor_name draft.actor db) draft.message))
            (u ∷ us))
          (Delivered draft db)
          (
            λ v. count-new new_id draft title v (u ∷ us) ∙ h v,
            docs,
            ap (λ es. es ++ map (emission name) ns) effects,
          ))

  -- A delivery is refused and changes nothing, or it stores and sends exactly one notification to each
  -- recipient who is neither the one who acts nor a super administrator, however often the draft names
  -- them, and none to anyone else.
  pub deliver-Delivered :
      (new_id : ℕ → ℕ) (draft : NotificationDraft) (db : Db m)
      → UnlessRefused db
          (Delivered draft db)
          (deliver new_id draft db).0
          (deliver new_id draft db).1
  unfolding deliver
  deliver-Delivered new_id draft db =
      (Ensures-gets (UnlessRefused db (Delivered draft db)) _ _ db (
        deliver_to-run new_id draft (inboxes_of (recipients_of draft) db) db
          (inbox-count draft db))).at

  deliver_to-long :
      (new_id : ℕ → ℕ) (draft : NotificationDraft) (u : ℕ) (us : List ℕ) (db : Db m)
      → ltb title_limit (length (units (title_of (actor_name draft.actor db) draft.message))) ≡ true
      → 1 ≤ count (is_number u) us
      → deliver_to new_id draft us db
        ≡ (err (unprocessable "Request payload failed validation"), db)
  unfolding deliver_to
  deliver_to-long new_id draft u [] db h k = absurd (omega (arith, k))
  deliver_to-long new_id draft u (v ∷ us) db h k =
      let name = actor_name draft.actor db in
      let title = title_of name draft.message in
      reads-returns _ _ db name refl
      ∙ send-long name (map (new_notification new_id draft title) (v ∷ us)) db
          (all_long new_id draft title v us ∙ h)

  -- When the title would be longer than 160 units, and someone is to be told, nobody is: the delivery
  -- raises a validation error and stores nothing.
  pub deliver-too_long :
      (new_id : ℕ → ℕ) (draft : NotificationDraft) (u : ℕ) (db : Db m)
      → is_told draft db u ≡ true
      → ltb title_limit (length (units (title_of (actor_name draft.actor db) draft.message))) ≡ true
      → deliver new_id draft db ≡ (err (unprocessable "Request payload failed validation"), db)
  unfolding deliver
  deliver-too_long new_id draft u db one long =
      let us = inboxes_of (recipients_of draft) db in
      let there = inbox-count draft db u ∙ ap (λ b. if b then 1 else 0) one in
      reads-returns _ _ db us refl
      ∙ deliver_to-long new_id draft u us db long (omega (arith, there))

  -- To mark all as read returns how many of the user's were unread, leaves none of them unread, and
  -- keeps the notifications of other users as they were. With a workspace, unread means unread in that
  -- workspace, and the notifications of the user elsewhere are kept too. What was read at another
  -- moment stays read at that moment.
  pub mark_all_read-reads :
      (now t u : ℕ) (ws : Option ℕ) (db : Db m)
      → (t == now) ≡ false
      → ((mark_all_read now u ws db).0
          ≡ ok (count (is_waiting u ws) (m.notification.docs db.notifications)))
        × (count (is_waiting u ws) (m.notification.docs (mark_all_read now u ws db).1.notifications)
            ≡ 0)
        × (filter
              (is_elsewhere u ws)
              (m.notification.docs (mark_all_read now u ws db).1.notifications)
            ≡ filter (is_elsewhere u ws) (m.notification.docs db.notifications))
        × (filter (is_read_at t) (m.notification.docs (mark_all_read now u ws db).1.notifications)
            ≡ filter (is_read_at t) (m.notification.docs db.notifications))
  unfolding mark_all_read modify reads pure ◌>>=◌
  mark_all_read-reads now t u ws db d = (
    ap ok (m.notification.count_lem (is_waiting u ws) db.notifications),
    rw (m.notification.docs-update_many (is_waiting u ws) (read now) db.notifications)
        (waiting-none now u ws (m.notification.docs db.notifications)),
    rw (m.notification.docs-update_many (is_waiting u ws) (read now) db.notifications)
        (elsewhere-kept now u ws (m.notification.docs db.notifications)),
    rw (m.notification.docs-update_many (is_waiting u ws) (read now) db.notifications)
        (read-kept now t u ws (m.notification.docs db.notifications) d),
  )
