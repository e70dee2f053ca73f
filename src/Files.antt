-- ===== src/Files.antt =====
-- src/services/file.service.ts: uploads, which are stored once for each content in a workspace, and
-- their deletion. `locate` is `FilePath.stored`; a failure of `unlink` is ignored, as in the source.
-- The stored name is a new UUID, so that the unique index on it is not met.
pub mod Uploads
mod Tests
use flowdeck_backend.Constants.FileMessages
use flowdeck_backend.Base.{
  Bool, Option, String, false, leb, length, ltb, none, not, same_text, some, true, ℕ, ◌&&◌, ◌==◌,
  ◌||◌,
}
use flowdeck_backend.Models.{
  AuditEntity, Db, Effect, FileAsset, FilePath, Models, WorkspaceRole, cause, workspace_role_rank,
}
use flowdeck_backend.Notifications.{units}
use flowdeck_backend.Store.{
  Exec, Result, forbidden, gets, modify, not_found, or_raise, pure, raise_if, reads, unprocessable,
  ◌>>=◌, ◌>>◌,
}

-- The fields of the multipart request, `UploadedFile`.
pub record UploadedFile : Type 0 where
  pub original_name : String
  pub stored_name : String
  pub target : String
  pub mime_type : String
  pub size : ℕ
  pub checksum : String

pub record UploadInput : Type 0 where
  pub entity_type : Option AuditEntity
  pub entity_id : Option ℕ

pub record Upload : Type 0 where
  pub asset : FileAsset
  pub deduplicated : Bool

-- `maxlength` of `originalName`, which is `required` too: the empty text is refused
abbrev pub name_limit : ℕ
name_limit = 255

abbrev pub has_content : ℕ → String → FileAsset → Bool
has_content workspace checksum a = a.workspace == workspace && same_text a.checksum checksum

abbrev pub is_file_of : ℕ → ℕ → FileAsset → Bool
is_file_of workspace file a = a.id == file && a.workspace == workspace

abbrev pub is_file : ℕ → FileAsset → Bool
is_file file a = a.id == file

abbrev pub locate : FileAsset → FilePath
locate asset = FilePath.stored asset.workspace asset.stored_name

abbrev pub new_asset : ℕ → ℕ → ℕ → UploadedFile → UploadInput → FileAsset
new_asset id workspace uploader upload meta = record {
  id = id;
  workspace = workspace;
  uploaded_by = uploader;
  original_name = upload.original_name;
  stored_name = upload.stored_name;
  mime_type = upload.mime_type;
  size = upload.size;
  checksum = upload.checksum;
  entity_type = meta.entity_type;
  entity_id = meta.entity_id;
}

abbrev pub may_delete : ℕ → WorkspaceRole → FileAsset → Bool
may_delete user role asset =
    asset.uploaded_by == user
    || leb (workspace_role_rank WorkspaceRole.admin) (workspace_role_rank role)

module _ {m : Models} where
  unfoldable pub store_upload :
      ℕ → ℕ → ℕ → UploadedFile → UploadInput → Option FileAsset → Exec (Db m) Upload
  store_upload id workspace uploader upload meta (some existing) = do
    cause (Effect.unlink (FilePath.target upload.target))
    pure (record { asset = existing; deduplicated = true })
  store_upload id workspace uploader upload meta none = do
    raise_if
        (same_text upload.original_name "" || ltb name_limit (length (units upload.original_name)))
        (unprocessable "Request payload failed validation")
    let asset = new_asset id workspace uploader upload meta
    modify (λ db. record db { file_assets = m.file_asset.create asset db.file_assets })
    pure (record { asset = asset; deduplicated = false })

  -- `id` is the identifier that a new document is given.
  unfoldable pub register_upload : ℕ → ℕ → ℕ → UploadedFile → UploadInput → Exec (Db m) Upload
  register_upload id workspace uploader upload meta = do
    existing ←
        gets (λ db. m.file_asset.find_one (has_content workspace upload.checksum) db.file_assets)
    store_upload id workspace uploader upload meta existing

  unfoldable pub get_asset : ℕ → ℕ → Db m → Result FileAsset
  get_asset workspace file db =
      or_raise (m.file_asset.find_one (is_file_of workspace file) db.file_assets)
        (not_found FileMessages.not_found)

  unfoldable pub delete_file : ℕ → ℕ → ℕ → WorkspaceRole → Exec (Db m) ℕ
  delete_file workspace file user role = do
    asset ← reads (get_asset workspace file)
    raise_if (not (may_delete user role asset)) (forbidden FileMessages.not_owner)
    cause (Effect.unlink (locate asset))
    modify (λ db. record db {
      file_assets = m.file_asset.delete_one (is_file asset.id) db.file_assets;
    })
    pure asset.id
