-- ===== src/Files/Uploads.antt =====
-- src/services/file.service.ts: what an upload and a deletion leave.
use flowdeck_backend.Base.{
  Bool, Bool-cases, List, Option, String, [], ap, arith, count, count-append, false, find,
  find-append_new, find-count_pos_by, find-count_zero, find_sound, inl, inr, none, refl,
  remove_first, same_text_eq, same_text_refl, some, subst, sym, true, ℕ, ◌++◌, ◌==◌, ◌∙◌, ◌∷◌, ◌≡◌,
  ◌≤◌, ◌⊎◌,
}
use flowdeck_backend.Files.{
  Upload, UploadInput, UploadedFile, delete_file, get_asset, has_content, is_file, is_file_of,
  locate, may_delete, new_asset, register_upload, store_upload,
}
use flowdeck_backend.Models.{Db, Effect, FileAsset, FilePath, Models, WorkspaceRole}
use flowdeck_backend.Store.{
  Ensures, Ensures-gets, Ensures-guard, Ensures-modify, Ensures-pure, Ensures-reads, Result,
  UnlessRefused, or_raise-eq-ok,
}

-- Every content is stored once in a workspace.
abbrev pub IsDeduplicated : List FileAsset → Type 0
IsDeduplicated xs = (w : ℕ) (c : String) → count (has_content w c) xs ≤ 1

-- Nothing is stored and the file just written is removed, or the asset is stored last and its file
-- is kept.
abbrev pub IsKept : UploadedFile → {m : Models} → Db m → Upload → Db m → Type 0
IsKept upload {m} db r db' =
    ((r.deduplicated ≡ true)
      × (db' ≡ record db {
        effects = db.effects ++ Effect.unlink (FilePath.target upload.target) ∷ [];
      }))
    ⊎ ((r.deduplicated ≡ false)
        × (m.file_asset.docs db'.file_assets ≡ m.file_asset.docs db.file_assets ++ r.asset ∷ [])
        × (db'.effects ≡ db.effects))

-- What an upload leaves.
abbrev pub Registered : ℕ → UploadedFile → {m : Models} → Db m → Upload → Db m → Type 0
Registered workspace upload {m} db r db' =
    IsDeduplicated (m.file_asset.docs db'.file_assets)
    × (count (has_content workspace upload.checksum) (m.file_asset.docs db'.file_assets) ≡ 1)
    × (find (has_content workspace upload.checksum) (m.file_asset.docs db'.file_assets)
        ≡ some r.asset)
    × IsKept upload db r db'

-- What a deletion leaves.
abbrev pub Deleted : ℕ → ℕ → ℕ → WorkspaceRole → {m : Models} → Db m → ℕ → Db m → Type 0
Deleted workspace file user role {m} db id db' =
    (asset : FileAsset) × (find (is_file_of workspace file) (m.file_asset.docs db.file_assets)
      ≡ some asset)
    × (may_delete user role asset ≡ true)
    × (m.file_asset.docs db'.file_assets
        ≡ remove_first (is_file asset.id) (m.file_asset.docs db.file_assets))
    × (db'.effects ≡ db.effects ++ Effect.unlink (locate asset) ∷ [])
    × IsDeduplicated (m.file_asset.docs db'.file_assets)

same_number : (a b : ℕ) → (a == b) ≡ true → a ≡ b
same_number a b h = ground (arith, h)

has_content-new_asset :
    (id workspace uploader : ℕ) (upload : UploadedFile) (meta : UploadInput)
    → has_content workspace upload.checksum (new_asset id workspace uploader upload meta) ≡ true
has_content-new_asset id workspace uploader upload meta =
    ground (arith, same_text_refl upload.checksum)

same-content :
    (a : FileAsset) (w : ℕ) (c : String) (xs : List FileAsset)
    → has_content w c a ≡ true
    → count (has_content a.workspace a.checksum) xs ≡ 0
    → count (has_content w c) xs ≡ 0
same-content a w c xs e h =
    subst (λ d. count (has_content w d) xs ≡ 0) (same_text_eq a.checksum c (ground (arith, e)))
      (subst (λ v. count (has_content v a.checksum) xs ≡ 0)
        (same_number a.workspace w (ground (arith, e))) h)

adds-IsDeduplicated :
    (a : FileAsset) (xs : List FileAsset)
    → IsDeduplicated xs
    → count (has_content a.workspace a.checksum) xs ≡ 0
    → IsDeduplicated (xs ++ a ∷ [])
adds-IsDeduplicated a xs once h w c = elim (Bool-cases (has_content w c a)) [
  | inl e ↦ ground (arith, count-append (has_content w c) xs (a ∷ []), same-content a w c xs e h, e)
  | inr e ↦ ground (arith, count-append (has_content w c) xs (a ∷ []), once w c, e)
]

count-remove_first_le :
    {A : Type 0} (p q : A → Bool) (xs : List A) → count q (remove_first p xs) ≤ count q xs
count-remove_first_le p q [] = omega arith
count-remove_first_le p q (x ∷ xs) = ground (arith, count-remove_first_le p q xs)

module _ {m : Models} where
  store_upload-Registered :
      (id workspace uploader : ℕ) (upload : UploadedFile) (meta : UploadInput) (db : Db m)
      (existing : Option FileAsset)
      → IsDeduplicated (m.file_asset.docs db.file_assets)
      → find (has_content workspace upload.checksum) (m.file_asset.docs db.file_assets) ≡ existing
      → Ensures
          (UnlessRefused db (Registered workspace upload db))
          (store_upload id workspace uploader upload meta existing)
          db
  unfolding store_upload
  store_upload-Registered id workspace uploader upload meta db none once e =
      Ensures-guard Q _ _ _ db refl λ short. Ensures-modify Q _ _ db (
        Ensures-pure Q _ _ (
          let p = has_content workspace upload.checksum in
          let a = new_asset id workspace uploader upload meta in
          let docs = m.file_asset.docs db.file_assets in
          let z = find-count_zero p docs e in
          let own = has_content-new_asset id workspace uploader upload meta in
          let created = m.file_asset.docs-create a db.file_assets in
          (
            subst IsDeduplicated (sym created) (adds-IsDeduplicated a docs once z),
            ap (count p) created ∙ count-append p docs (a ∷ []) ∙ ground (arith, z, own),
            ap (find p) created ∙ find-append_new p docs a e own,
            inr (refl, created, refl),
          )))
    where
      Q : Result Upload → Db m → Type 0
      Q = UnlessRefused db (Registered workspace upload db)
  store_upload-Registered id workspace uploader upload meta db (some a) once e =
      Ensures-modify Q _ _ db (
        Ensures-pure Q _ _ (
          once,
          omega (
            arith,
            once workspace upload.checksum,
            find-count_pos_by (has_content workspace upload.checksum)
                (has_content workspace upload.checksum) (m.file_asset.docs db.file_assets) a e
                (find_sound (has_content workspace upload.checksum)
                  (m.file_asset.docs db.file_assets) a e),
          ),
          e,
          inl (refl, refl),
        ))
    where
      Q : Result Upload → Db m → Type 0
      Q = UnlessRefused db (Registered workspace upload db)

  -- Where every content is stored once in each workspace, an upload is refused and changes nothing,
  -- or every content is still stored once, the content of the upload is, as the asset returned, and
  -- either that was there, nothing is stored and the file just written is removed, or it is added.
  pub register_upload-Registered :
      (id workspace uploader : ℕ) (upload : UploadedFile) (meta : UploadInput) (db : Db m)
      → IsDeduplicated (m.file_asset.docs db.file_assets)
      → UnlessRefused db
          (Registered workspace upload db)
          (register_upload id workspace uploader upload meta db).0
          (register_upload id workspace uploader upload meta db).1
  unfolding register_upload
  register_upload-Registered id workspace uploader upload meta db once =
      (Ensures-gets (UnlessRefused db (Registered workspace upload db)) _ _ db (
        store_upload-Registered id workspace uploader upload meta db _ once
          (sym (m.file_asset.find_one_lem _ db.file_assets)))).at

  -- Where every content is stored once in each workspace, a deletion is refused and changes nothing,
  -- or it takes away a file of the workspace that the user uploaded or may administer, in the store
  -- and on disk, and every content is still stored once.
  pub delete_file-Deleted :
      (workspace file user : ℕ) (role : WorkspaceRole) (db : Db m)
      → IsDeduplicated (m.file_asset.docs db.file_assets)
      → UnlessRefused db
          (Deleted workspace file user role db)
          (delete_file workspace file user role db).0
          (delete_file workspace file user role db).1
  unfolding delete_file get_asset
  delete_file-Deleted workspace file user role db once =
      (Ensures-reads Q _ _ db (λ e. refl)
        λ asset loaded. Ensures-guard Q _ _ _ db refl λ allowed. Ensures-modify Q _ _ db (
          Ensures-modify Q _ _ _ (
            Ensures-pure Q _ _ (
              let p = is_file_of workspace file in
              let docs = m.file_asset.docs db.file_assets in
              let e =
                sym (m.file_asset.find_one_lem p db.file_assets) ∙ or_raise-eq-ok _ _ _ loaded in
              let deleted = m.file_asset.docs-delete_one (is_file asset.id) db.file_assets in
              (
                asset,
                e,
                ground (arith, allowed),
                deleted,
                refl,
                λ w c. rw deleted (
                    omega (
                      arith,
                      count-remove_first_le (is_file asset.id) (has_content w c) docs,
                      once w c,
                    )),
              ))))).at
    where
      Q : Result ℕ → Db m → Type 0
      Q = UnlessRefused db (Deleted workspace file user role db)
