-- ===== src/Photos/Tests.antt =====
-- An upload at concrete inputs.
use b4fast_api.Prelude.{◌≡◌, refl, true, none, some, [], ◌∷◌, arith}
use b4fast_api.Database.Instance.{list_table}
use b4fast_api.Outbox.{same_id}
use b4fast_api.Inbox.{same_notification}
use b4fast_api.ApiKeys.{same_api_key}
use b4fast_api.Accounts.{
  user_role, same_user, same_credential, same_identity, same_audit, Tables, Accounts, new_user,
  get_auth_user_by_id,
}
use b4fast_api.Accounts.Profile.{get_user_response_by_id}
use b4fast_api.Photos.{
  StorageEnv, Upload, written, PhotoWorld, replace, get_photo, fits_upload, upload, read_photo,
  photo_data, photo_error, photo_not_found, Removal, delete_photo,
}
use b4fast_api.Photos.Backed.{IsBacked}
use b4fast_api.Photos.Reads.{upload-read_photo}
use b4fast_api.Photos.Uploads.{upload-IsBacked}

abbrev tables : Tables
tables = record {
  users = list_table same_user;
  credentials = list_table same_credential;
  identities = list_table same_identity;
  audits = list_table same_audit;
  inbox = list_table same_notification;
  outbox = list_table same_id;
  api_keys = list_table same_api_key;
}

abbrev database : Accounts tables
database = record {
  users =
      record (new_user 1 101 11 true user_role) {
        profile_image_url = some 70;
        profile_photo = some 7;
      }
      ∷ [];
  credentials = [];
  identities = [];
  audits = [];
  inbox = [];
  outbox = [];
  api_keys = [];
}

abbrev storage : StorageEnv
storage = record { key_of = λ r. r; storage_of = λ r. 0; identity = 0 }

abbrev world : PhotoWorld storage tables
world = record { db = database; objects = 7 ∷ [] }

abbrev photo : Upload storage tables
photo = record {
  user_id = 1;
  chunks = 4096 ∷ 100 ∷ [];
  is_image = true;
  reference = 8;
  url = 80;
  put = written;
  commit = written;
  can_review = true;
  deletes = true;
  others = λ v. v;
}

photo_uploaded : (upload storage tables photo world).0 ≡ none
unfolding upload fits_upload get_photo replace get_user_response_by_id get_auth_user_by_id
photo_uploaded = refl

old_photo_deleted : (upload storage tables photo world).1.objects ≡ 8 ∷ []
unfolding upload fits_upload get_photo replace
old_photo_deleted = refl

abbrev two_reads : Upload storage tables
two_reads = record photo { chunks = 8388608 ∷ 1 ∷ [] }

large_photo_refused : (upload storage tables two_reads world).1 ≡ world
unfolding upload fits_upload get_photo
large_photo_refused = refl

world-IsBacked : IsBacked storage tables 1 world
unfolding get_photo
world-IsBacked = record { in_storage = refl; one_row = omega arith }

upload-IsBacked_example : IsBacked storage tables 1 (upload storage tables photo world).1
unfolding get_photo
upload-IsBacked_example = upload-IsBacked storage tables photo world world-IsBacked refl (λ v h. h)

photo_read : read_photo storage tables 1 (some 70) true world ≡ photo_data 7
unfolding read_photo get_photo
photo_read = refl

stale_photo_refused : read_photo storage tables 1 (some 60) true world ≡ photo_error photo_not_found
unfolding read_photo get_photo
stale_photo_refused = refl

abbrev removal : Removal storage tables
removal = record { user_id = 1; commit = written; deletes = true; others = λ v. v }

photo_deleted : (delete_photo storage tables removal world).1.objects ≡ []
unfolding delete_photo get_photo replace
photo_deleted = refl

upload-read_photo_example :
    read_photo storage tables 1 none true (upload storage tables photo world).1 ≡ photo_data 8
unfolding get_photo
upload-read_photo_example =
    upload-read_photo storage tables photo world world-IsBacked refl (λ v h. h) refl photo_uploaded
