-- ===== src/Auth/Ending.antt =====
-- src/services/auth.service.ts: `logoutEverywhere` and `changePassword` end every session of a user.
use flowdeck_backend.Constants.AuthMessages
use flowdeck_backend.Auth.{
  change_password, is_session_of, is_user, logout_everywhere, next_version, only_if, revoke_where,
  revoked, update_user, verify_password, with_password,
}
use flowdeck_backend.Auth.Access.{IsAccepted, resolve_access_token-found, resolved-IsAccepted}
use flowdeck_backend.Auth.Identity.{resolve_access_token}
use flowdeck_backend.Auth.Tokens.{Crypto}
use flowdeck_backend.Base.{
  Bool, List, Option, String, [], ap, arith, count, false, find, find-map_first, find_sound, get_or,
  map_where, none, refl, some, subst, sym, true, ℕ, ◌+◌, ◌==◌, ◌∙◌, ◌∷◌, ◌≡◌,
}
use flowdeck_backend.Models.{Db, Models, RefreshToken, User}
use flowdeck_backend.Store.{
  Ensures, Ensures-gets, Ensures-modify, Ensures-reads, Result, call-returns, err, modify, ok,
  or_raise-eq-ok, pure, reads, unauthorized, ◌>>=◌,
}

same_id : (a u i : ℕ) → (a == i) ≡ true → a ≡ u → u ≡ i
same_id a u i h e = ground arith

same_number : (a i : ℕ) → (a == i) ≡ true → i ≡ a
same_number a i h = ground arith

stale : (v w : ℕ) → (v == w) ≡ true → (v == w + 1) ≡ false
stale v w h = ground arith

count-map_where_none :
    (u now : ℕ) (ts : List RefreshToken)
    → count (is_session_of u) (map_where (is_session_of u) (revoked now) ts) ≡ 0
count-map_where_none u now [] = refl
count-map_where_none u now (t ∷ ts) = ground (arith, count-map_where_none u now ts)

module _ {m : Models} where
  -- What `logoutEverywhere` leaves.
  unfoldable pub ended : ℕ → ℕ → Db m → Db m
  ended now u db = update_user u next_version (revoke_where (is_session_of u) now db)

  pub logout_everywhere-ended :
      (now u : ℕ) (db : Db m)
      → logout_everywhere now u db
        ≡ (ok (m.refresh_token.count_documents (is_session_of u) db.refresh_tokens), ended now u db)
  unfolding logout_everywhere ended ◌>>=◌ modify reads pure
  logout_everywhere-ended now u db = refl

  pub ended-none :
      (now u : ℕ) (db : Db m)
      → count (is_session_of u) (m.refresh_token.docs (ended now u db).refresh_tokens) ≡ 0
  unfolding ended
  ended-none now u db =
      rw
        (
          m.refresh_token.docs-update_many (is_session_of u) (revoked now) db.refresh_tokens,
          count-map_where_none u now (m.refresh_token.docs db.refresh_tokens),
        )
        refl

  -- What a search by id finds after the account has been rewritten.
  pub find-update_user :
      (u i : ℕ) (f : User → User) (a : User) (db : Db m)
      → find (is_user i) (m.user.docs db.users) ≡ some a
      → a.id ≡ u
      → (f a).id ≡ a.id
      → find (is_user i) (m.user.docs (update_user u f db).users) ≡ some (f a)
  find-update_user u i f a db e same kept =
      let named = find_sound (is_user i) (m.user.docs db.users) a e in
      let here = same_id a.id u i named same in
      rw (m.user.docs-update_one (is_user u) f db.users, here)
        (find-map_first (is_user i) f (m.user.docs db.users) a e (rw kept named))

  -- The account, with the next version of its tokens.
  pub ended-found :
      (now u i : ℕ) (a : User) (db : Db m)
      → find (is_user i) (m.user.docs db.users) ≡ some a
      → a.id ≡ u
      → find (is_user i) (m.user.docs (ended now u db).users) ≡ some (next_version a)
  unfolding ended
  ended-found now u i a db e same =
      find-update_user u i next_version a (revoke_where (is_session_of u) now db) e same refl

  -- It returns how many sessions of the user were open, and leaves none of them open.
  pub logout_everywhere-revokes :
      (now u : ℕ) (db : Db m)
      → ((logout_everywhere now u db).0
          ≡ ok (count (is_session_of u) (m.refresh_token.docs db.refresh_tokens)))
        × (count
              (is_session_of u)
              (m.refresh_token.docs (logout_everywhere now u db).1.refresh_tokens)
            ≡ 0)
  logout_everywhere-revokes now u db =
      rw
        (
          logout_everywhere-ended now u db,
          m.refresh_token.count_lem (is_session_of u) db.refresh_tokens,
        )
        (refl, ended-none now u db)

only_if-some :
    {A : Type 0} (p : A → Bool) (o : Option A) (a : A)
    → only_if p o ≡ some a
    → (o ≡ some a) × (p a ≡ true)
only_if-some p none a h = cc
only_if-some p (some b) a h = ground (arith, h)

-- What a change of password leaves: when it is refused, all as it was.
abbrev ChangedTo :
    (crypto : Crypto) {m : Models}
    → ℕ
    → String
    → ℕ
    → String
    → String
    → Db m
    → Result User
    → Db m
    → Type 0
ChangedTo crypto {m} now salt u current_password new_password db (ok a) db' =
    (b : User) × (find (is_user u) (m.user.docs db.users) ≡ some b)
    × (verify_password crypto current_password b ≡ true)
    × (a ≡ with_password crypto now salt new_password b)
    × (db' ≡ ended now u (update_user b.id (with_password crypto now salt new_password) db))
ChangedTo crypto now salt u current_password new_password db (err e) db' = db' ≡ db

module _ (crypto : Crypto) {m : Models} where
  ended-refuses :
      (now later : ℕ) (token : Option String) (u : User) (db : Db m)
      → IsAccepted crypto later token db u
      → (resolve_access_token crypto later token (ended now u.id db)).0
        ≡ err (unauthorized AuthMessages.session_revoked)
  unfolding ended
  ended-refuses now later token u db a =
      ap (λ r. r.0)
        (resolve_access_token-found crypto later token _ a.text a.claims (next_version u) a.is_text
          a.is_claims
          (find-update_user u.id a.claims.sub next_version u
            (revoke_where (is_session_of u.id) now db) a.found refl refl)
          a.active)
      ∙ (rw (stale (get_or a.claims.ver 0) u.token_version a.version) refl)

  -- An access token that a user's requests were accepted with is refused as revoked as soon as the
  -- user has signed out everywhere.
  pub logout_everywhere-refuses :
      (now later : ℕ) (token : Option String) (u : User) (db : Db m)
      → (resolve_access_token crypto later token db).0 ≡ ok u
      → (resolve_access_token crypto later token (logout_everywhere now u.id db).1).0
        ≡ err (unauthorized AuthMessages.session_revoked)
  logout_everywhere-refuses now later token u db h =
      rw (logout_everywhere-ended now u.id db)
        (ended-refuses now later token u db (resolved-IsAccepted crypto later token db u h))

  and_return :
      (now u : ℕ) (a : User) (db : Db m)
      → (logout_everywhere now u >>= λ _. pure a) db ≡ (ok a, ended now u db)
  unfolding pure
  and_return now u a db = call-returns _ _ db _ (ended now u db) (logout_everywhere-ended now u db)

  change_password-ChangedTo :
      (now : ℕ) (salt : String) (u : ℕ) (current_password new_password : String) (db : Db m)
      → Ensures
          (ChangedTo crypto now salt u current_password new_password db)
          (change_password crypto now salt u current_password new_password)
          db
  unfolding change_password
  change_password-ChangedTo now salt u current_password new_password db = Ensures-gets Q _ _ db (
      Ensures-reads Q _ _ db (λ _. refl)
        λ a known. Ensures-modify Q _ _ db (record {
          at =
              let (found, knows) =
                only_if-some (verify_password crypto current_password) _ a
                  (or_raise-eq-ok _ _ a known) in
              rw
                (and_return now u (with_password crypto now salt new_password a)
                  (update_user a.id (with_password crypto now salt new_password) db))
                (a, sym (m.user.find_one_lem (is_user u) db.users) ∙ found, knows, refl, refl);
        }))
    where
      Q : Result User → Db m → Type 0
      Q = ChangedTo crypto now salt u current_password new_password db

  pub changed :
      (now : ℕ) (salt : String) (u : ℕ) (current_password new_password : String) (db : Db m)
      (a : User)
      → (change_password crypto now salt u current_password new_password db).0 ≡ ok a
      → ChangedTo crypto now salt u current_password new_password db
          (ok a)
          (change_password crypto now salt u current_password new_password db).1
  changed now salt u current_password new_password db a h =
      subst
        (λ r.
          ChangedTo crypto now salt u current_password new_password db r
            (change_password crypto now salt u current_password new_password db).1)
        h (change_password-ChangedTo now salt u current_password new_password db).at

  password-IsAccepted :
      (now later : ℕ) (salt password : String) (token : Option String) (u : User) (i : ℕ)
      (db : Db m)
      → IsAccepted crypto later token db u
      → u.id ≡ i
      → IsAccepted crypto later token
          (update_user i (with_password crypto now salt password) db)
          (with_password crypto now salt password u)
  password-IsAccepted now later salt password token u i db a same = record {
    text = a.text;
    claims = a.claims;
    is_text = a.is_text;
    is_claims = a.is_claims;
    found =
        find-update_user i a.claims.sub (with_password crypto now salt password) u db a.found same
          refl;
    active = a.active;
    version = a.version;
  }

  -- When a user has changed the password, every access token that the user's requests were accepted
  -- with is refused as revoked, no session of the user is open, and the stored account verifies the
  -- new password.
  pub change_password-ends :
      (now later : ℕ) (salt : String) (current_password new_password : String)
      (token : Option String) (u a : User) (db : Db m)
      → (resolve_access_token crypto later token db).0 ≡ ok u
      → (change_password crypto now salt u.id current_password new_password db).0 ≡ ok a
      → ((resolve_access_token crypto later token
            (change_password crypto now salt u.id current_password new_password db).1).0
          ≡ err (unauthorized AuthMessages.session_revoked))
        × (count (is_session_of u.id) (
              m.refresh_token.docs
                (change_password crypto now salt u.id current_password new_password
                  db).1.refresh_tokens)
            ≡ 0)
        × (b : User) × (find (is_user u.id) (
              m.user.docs
                (change_password crypto now salt u.id current_password new_password db).1.users)
            ≡ some b)
        × (verify_password crypto new_password b ≡ true)
  change_password-ends now later salt current_password new_password token u a db h done =
      let (b, found, _, same, after) =
        changed now salt u.id current_password new_password db a done in
      let b_is_u =
        same_number b.id u.id (find_sound (is_user u.id) (m.user.docs db.users) b found) in
      let accepted =
        password-IsAccepted now later salt new_password token u b.id db
          (resolved-IsAccepted crypto later token db u h) b_is_u in
      let saved = update_user b.id (with_password crypto now salt new_password) db in
      (
        rw after (
            ended-refuses now later token (with_password crypto now salt new_password u) saved
              accepted),
        rw after (ended-none now u.id saved),
        next_version (with_password crypto now salt new_password b),
        rw after (
            ended-found now u.id u.id (with_password crypto now salt new_password b) saved
              (find-update_user b.id u.id (with_password crypto now salt new_password) b db found
                refl refl)
              (sym b_is_u)),
        crypto.compare_password_lem salt new_password,
      )
