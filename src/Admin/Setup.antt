-- ===== src/Admin/Setup.antt =====
-- src/services/admin.service.ts: there is one super administrator.
use flowdeck_backend.Admin.{
  SuperAdminInput, create_super_admin, is_other_key, is_platform_owner, new_super_admin,
  setup_status,
}
use flowdeck_backend.Auth.Tokens.{Crypto}
use flowdeck_backend.Base.{
  Bool-cases, Option, String, [], ap, arith, count, count-append, false, find-count_zero, inl, inr,
  is_none, none, not, refl, same_text, same_text_eq, some, sym, true, ℕ, ◌&&◌, ◌++◌, ◌∙◌, ◌∷◌, ◌≡◌,
  ◌⊎◌,
}
use flowdeck_backend.Models.{Db, Models, User}
use flowdeck_backend.Store.{
  Ensures-gets, Ensures-guard, Ensures-modify, Ensures-pure, Result, UnlessRefused,
}

none-of : {A : Type 0} (o : Option A) → not (is_none o) ≡ false → o ≡ none
none-of none h = refl
none-of (some a) h = cc

-- What the creation of the super administrator leaves.
abbrev pub Claimed : String → SuperAdminInput → {m : Models} → Db m → User → Db m → Type 0
Claimed key payload {m} db admin db' =
    (count is_platform_owner (m.user.docs db.users) ≡ 0)
    × (count is_platform_owner (m.user.docs db'.users) ≡ 1)
    × (m.user.docs db'.users ≡ m.user.docs db.users ++ admin ∷ [])
    × ((same_text key "" ≡ true) ⊎ (payload.setup_key ≡ some key))

key-asked :
    (key : String) (asked : Option String)
    → (not (same_text key "") && is_other_key key asked) ≡ false
    → (same_text key "" ≡ true) ⊎ (asked ≡ some key)
key-asked key none h = inl (ground (arith, h))
key-asked key (some k) h = elim (Bool-cases (same_text key "")) [
  | inl e ↦ inl e
  | inr e ↦ inr (ap some (same_text_eq k key (ground (arith, h, e))))
]

module _ (crypto : Crypto) {m : Models} where
  -- A request for the super administrator is refused and changes nothing, or there was none, the new
  -- account is the only one, and the request gave the setup key where there is one.
  pub create_super_admin-Claimed :
      (key : String) (id now : ℕ) (salt : String) (payload : SuperAdminInput) (db : Db m)
      → UnlessRefused db
          (Claimed key payload db)
          (create_super_admin crypto key id now salt payload db).0
          (create_super_admin crypto key id now salt payload db).1
  unfolding create_super_admin setup_status
  create_super_admin-Claimed key id now salt payload db =
      (Ensures-gets Q _ _ db (
        Ensures-guard Q _ _ _ db refl λ free. Ensures-guard Q _ _ _ db refl λ keyed.
          Ensures-gets Q _ _ db (
            Ensures-guard Q _ _ _ db refl λ _. Ensures-modify Q _ _ db (
              Ensures-pure Q _ _ (
                let z = find-count_zero is_platform_owner (m.user.docs db.users) (
                  sym (m.user.find_one_lem is_platform_owner db.users)
                  ∙ none-of _ (ground (arith, free))) in
                let docs =
                  m.user.docs-create (new_super_admin crypto id now salt payload) db.users in
                (
                  z,
                  rw
                      (
                        docs,
                        count-append is_platform_owner (m.user.docs db.users)
                            (new_super_admin crypto id now salt payload ∷ []),
                        z,
                      )
                      refl,
                  docs,
                  key-asked key payload.setup_key keyed,
                )))))).at
    where
      Q : Result User → Db m → Type 0
      Q = UnlessRefused db (Claimed key payload db)
