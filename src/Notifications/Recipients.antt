-- ===== src/Notifications/Recipients.antt =====
-- src/services/notification.service.ts: the inboxes that `deliver` fills.
use flowdeck_backend.Auth.{is_user}
use flowdeck_backend.Base.{
  Bool, Bool-cases, List, [], any, ap, arith, count, elem, false, filter, if◌then◌else◌, inl, inr,
  not, refl, subst, sym, true, ℕ, ◌&&◌, ◌==◌, ◌∙◌, ◌∷◌, ◌≡◌,
}
use flowdeck_backend.Boards.{set_of}
use flowdeck_backend.Models.{Db, Models, NotificationDraft, User}
use flowdeck_backend.Notifications.{inboxes_of, is_not, is_super_admin, recipients_of}

abbrev pub is_number : ℕ → ℕ → Bool
is_number u v = v == u

number-eq : (u v : ℕ) → (v == u) ≡ true → v ≡ u
number-eq u v h = ground arith

count-filter_at :
    (p : ℕ → Bool) (u : ℕ) (xs : List ℕ)
    → count (is_number u) (filter p xs) ≡ (if p u then count (is_number u) xs else 0)
count-filter_at p u [] = ground arith
count-filter_at p u (x ∷ xs) = elim (Bool-cases (x == u)) [
  | inl e ↦
      subst
        (λ y.
          count (is_number u) (filter p (y ∷ xs))
          ≡ (if p u then count (is_number u) (y ∷ xs) else 0))
        (sym (number-eq u x e)) (ground (arith, count-filter_at p u xs))
  | inr e ↦ ground (arith, e, count-filter_at p u xs)
]

count-set_of :
    (u : ℕ) (xs : List ℕ) → count (is_number u) (set_of xs) ≡ (if elem u xs then 1 else 0)
unfolding set_of
count-set_of u [] = refl
count-set_of u (x ∷ xs) =
    ground (arith, count-filter_at (λ y. not (y == x)) u (set_of xs), count-set_of u xs)

-- An account with this id is a super administrator.
abbrev pub is_platform_admin : {m : Models} → ℕ → Db m → Bool
is_platform_admin {m} u db = any (λ d. is_user u d && is_super_admin d.role) (m.user.docs db.users)

any-admins :
    (u : ℕ) (rs : List ℕ) (ds : List User)
    → elem u rs ≡ true
    → any (is_user u) (filter (λ d. elem d.id rs && is_super_admin d.role) ds)
      ≡ any (λ d. is_user u d && is_super_admin d.role) ds
any-admins u rs [] h = refl
any-admins u rs (d ∷ ds) h = elim (Bool-cases (d.id == u)) [
  | inl e ↦
      let here = subst (λ i. elem i rs ≡ true) (sym (number-eq u d.id e)) h in
      ground (arith, e, here, any-admins u rs ds h)
  | inr e ↦ ground (arith, e, any-admins u rs ds h)
]

elem-filter : (p : ℕ → Bool) (u : ℕ) (xs : List ℕ) → elem u (filter p xs) ≡ (elem u xs && p u)
elem-filter p u [] = refl
elem-filter p u (x ∷ xs) = elim (Bool-cases (u == x)) [
  | inl e ↦
      subst (λ y. elem u (filter p (y ∷ xs)) ≡ (elem u (y ∷ xs) && p u)) (number-eq x u e)
        (ground (arith, elem-filter p u xs))
  | inr e ↦ ground (arith, e, elem-filter p u xs)
]

elem-set_of : (u : ℕ) (xs : List ℕ) → elem u (set_of xs) ≡ elem u xs
unfolding set_of
elem-set_of u [] = refl
elem-set_of u (x ∷ xs) =
    ground (arith, elem-filter (λ y. not (y == x)) u (set_of xs), elem-set_of u xs)

decided :
    (told other flagged admin : Bool)
    → ((told && other) ≡ true → flagged ≡ admin)
    → ◌≡◌ {A = ℕ}
        (if not flagged then (if other then (if told then 1 else 0) else 0) else 0)
        (if told && other && not admin then 1 else 0)
decided true true flagged admin h = rw (h refl) refl
decided true false flagged admin h = ground arith
decided false other flagged admin h = ground arith

module _ {m : Models} where
  -- Whom a notification is for: the recipients but the one who acts and the super administrators.
  abbrev pub is_told : NotificationDraft → Db m → ℕ → Bool
  is_told draft db u =
      elem u draft.recipients && is_not draft.actor u && not (is_platform_admin u db)

  pub inbox-count :
      (draft : NotificationDraft) (db : Db m) (u : ℕ)
      → count (is_number u) (inboxes_of (recipients_of draft) db)
        ≡ (if is_told draft db u then 1 else 0)
  unfolding inboxes_of recipients_of
  inbox-count draft db u =
      count-filter_at (λ v. not (any (is_user v) admins)) u (recipients_of draft)
      ∙ ap (λ n. if not (any (is_user u) admins) then n else 0)
          (count-filter_at (is_not draft.actor) u (set_of draft.recipients)
            ∙ ap (λ n. if is_not draft.actor u then n else 0) (count-set_of u draft.recipients))
      ∙ decided (elem u draft.recipients) (is_not draft.actor u) (any (is_user u) admins)
          (is_platform_admin u db) same
    where
      admins : List User
      admins =
          m.user.find_many (λ d. elem d.id (recipients_of draft) && is_super_admin d.role) db.users

      same :
          (elem u draft.recipients && is_not draft.actor u) ≡ true
          → any (is_user u) admins ≡ is_platform_admin u db
      same h =
          rw
            (m.user.find_many_lem (λ d. elem d.id (recipients_of draft) && is_super_admin d.role)
              db.users)
            (any-admins u (recipients_of draft) (m.user.docs db.users) (
              elem-filter (is_not draft.actor) u (set_of draft.recipients)
              ∙ (rw (elem-set_of u draft.recipients) h)))
