-- ===== src/Files/Tests.antt =====
-- Uploads, at concrete inputs.
use flowdeck_backend.Base.{[], arith, none, refl, true, ◌∷◌, ◌≡◌}
use flowdeck_backend.Files.{
  UploadInput, UploadedFile, delete_file, new_asset, register_upload, store_upload,
}
use flowdeck_backend.Files.Uploads.{
  Deleted, IsDeduplicated, Registered, delete_file-Deleted, register_upload-Registered,
}
use flowdeck_backend.Models.{Db, WorkspaceRole, empty_db, list_models}
use flowdeck_backend.Store.{UnlessRefused, modify, ok, pure, reads, ◌>>=◌}

abbrev plain : UploadInput
plain = record { entity_type = none; entity_id = none }

abbrev picture : UploadedFile
picture = record {
  original_name = "a.png";
  stored_name = "u2.png";
  target = "up/1/u2.png";
  mime_type = "image/png";
  size = 3;
  checksum = "c0";
}

abbrev with_picture : Db list_models
with_picture = record empty_db { file_assets = new_asset 5 1 7 picture plain ∷ [] }

one-IsDeduplicated : IsDeduplicated with_picture.file_assets
one-IsDeduplicated w c = ground arith

uploads_again :
    (register_upload {m = list_models} 6 1 8 picture plain with_picture).0
    ≡ ok (record { asset = new_asset 5 1 7 picture plain; deduplicated = true })
unfolding register_upload ◌>>=◌ reads store_upload modify pure
uploads_again = refl

register_upload-Registered_example :
    UnlessRefused with_picture
      (Registered 2 picture {m = list_models} with_picture)
      (register_upload {m = list_models} 6 2 8 picture plain with_picture).0
      (register_upload {m = list_models} 6 2 8 picture plain with_picture).1
register_upload-Registered_example =
    register_upload-Registered {m = list_models} 6 2 8 picture plain with_picture one-IsDeduplicated

delete_file-Deleted_example :
    UnlessRefused with_picture
      (Deleted 1 5 7 WorkspaceRole.viewer {m = list_models} with_picture)
      (delete_file {m = list_models} 1 5 7 WorkspaceRole.viewer with_picture).0
      (delete_file {m = list_models} 1 5 7 WorkspaceRole.viewer with_picture).1
delete_file-Deleted_example =
    delete_file-Deleted {m = list_models} 1 5 7 WorkspaceRole.viewer with_picture one-IsDeduplicated
