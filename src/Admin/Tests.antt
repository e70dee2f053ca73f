-- ===== src/Admin/Tests.antt =====
-- The account of the super administrator, at concrete inputs.
use flowdeck_backend.Admin.{SuperAdminInput, create_super_admin, setup_status}
use flowdeck_backend.Admin.Setup.{Claimed, create_super_admin-Claimed}
use flowdeck_backend.Auth.Plain.{plain_crypto}
use flowdeck_backend.Base.{refl, some, ◌≡◌}
use flowdeck_backend.Models.{empty_db, list_models}
use flowdeck_backend.Store.{UnlessRefused, err, forbidden, reads, ◌>>=◌}

abbrev request : SuperAdminInput
request = record { name = "Ada"; email = "ada@x.io"; password = "secret"; setup_key = some "key" }

create_super_admin_refuses :
    (create_super_admin plain_crypto "other" 1 2 "s" request empty_db).0
    ≡ err (forbidden "That setup key is not valid")
unfolding create_super_admin ◌>>=◌ reads setup_status
create_super_admin_refuses = refl

create_super_admin-Claimed_example :
    UnlessRefused empty_db
      (Claimed "key" request {m = list_models} empty_db)
      (create_super_admin plain_crypto "key" 1 2 "s" request empty_db).0
      (create_super_admin plain_crypto "key" 1 2 "s" request empty_db).1
create_super_admin-Claimed_example =
    create_super_admin-Claimed plain_crypto "key" 1 2 "s" request empty_db
