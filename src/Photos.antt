-- ===== src/Photos.antt =====
-- src/backend/app/models/profile_photo.py and the service of
-- src/backend/app/services/profile_photo.py. A reference is a number with its key and the location
-- of its storage; the decoding of images is a parameter.
pub mod Backed
pub mod Uploads
pub mod Deletion
pub mod Reads
mod Tests
use b4fast_api.Prelude.{
  ℕ, ◌+◌, ◌*◌, Bool, true, false, not, ◌&&◌, ltb, ◌==◌, opt_eq, Option, none, some, List, [], ◌∷◌,
  if◌then◌else◌, find_row, where_rows, count_rows, and_then, is_none, is_some, any_row,
}
use b4fast_api.Accounts.{User, Tables, Accounts, user_rows}
use b4fast_api.Accounts.Profile.{get_user_response_by_id}

pub record PhotoSnapshot : Type 0 where
  pub url : Option ℕ
  pub reference : Option ℕ

module _ (D : Tables) where
  abbrev pub is_active_user : ℕ → User → Bool
  is_active_user user u = u.id == user && u.is_active

  abbrev pub snapshot : User → PhotoSnapshot
  snapshot u = record { url = u.profile_image_url; reference = u.profile_photo }

  -- `ProfilePhotos.get`; `none` is USER_NOT_FOUND
  unfoldable pub get_photo : ℕ → Accounts D → Option PhotoSnapshot
  get_photo user s =
      and_then (find_row (is_active_user user) (user_rows D s)) (λ u. some (snapshot u))

  abbrev pub set_photo : Option ℕ → Option ℕ → User → User
  set_photo url reference u = record u { profile_image_url = url; profile_photo = reference }

  abbrev pub shows : ℕ → Option ℕ → User → Bool
  shows user expected u = is_active_user user u && opt_eq u.profile_image_url expected

  -- `ProfilePhotos.replace`: whether the photo that the caller had seen was still there.
  unfoldable pub replace : ℕ → Option ℕ → Option ℕ → Option ℕ → Accounts D → Bool × Accounts D
  replace user expected url reference s = (
    count_rows (shows user expected) (user_rows D s) == 1,
    record s { users = D.users.update (shows user expected) (set_photo url reference) s.users },
  )

pub record StorageEnv : Type 0 where
  pub key_of : ℕ → ℕ
  pub storage_of : ℕ → ℕ
  -- `storage_identity()`
  pub identity : ℕ

pub data PhotoError : Type 0 where
  photo_user_not_found photo_too_large photo_invalid photo_unavailable photo_update_failed
        photo_conflict photo_not_found :
      PhotoError

-- 8 * 1024 * 1024
abbrev pub max_upload_bytes : ℕ
max_upload_bytes = 8388608

-- Whether the lengths of the chunks keep to the bound, as they are added.
unfoldable pub fits_upload : List ℕ → ℕ → Bool
fits_upload [] size = true
fits_upload (chunk ∷ chunks) size =
    let rest = fits_upload chunks (size + chunk) in
    if ltb max_upload_bytes (size + chunk) then false else rest

-- How a write ends: it fails after it was done, or without it.
pub data WriteOutcome : Type 0 where
  written lost_written lost_unwritten : WriteOutcome

module _ (G : StorageEnv) (D : Tables) where
  pub record PhotoWorld : Type 0 where
    pub db : Accounts D
    -- the keys of the objects in the storage
    pub objects : List ℕ

  -- What an upload meets.
  pub record Upload : Type 0 where
    pub user_id : ℕ
    pub chunks : List ℕ
    -- whether the data is an image
    pub is_image : Bool
    -- the new reference and its URL, with the version that is drawn
    pub reference : ℕ
    pub url : ℕ
    pub put : WriteOutcome
    pub commit : WriteOutcome
    -- whether the photo can be read after a commit that failed
    pub can_review : Bool
    -- whether the storage deletes
    pub deletes : Bool
    -- what other requests do before the commit
    pub others : PhotoWorld → PhotoWorld

  -- `cleanup`
  abbrev pub cleanup : Bool → Option ℕ → PhotoWorld → PhotoWorld
  cleanup deletes none w = w
  cleanup deletes (some reference) w =
      if G.storage_of reference == G.identity && deletes
      then record w { objects = where_rows (λ k. not (k == G.key_of reference)) w.objects }
      else w

  abbrev pub unless_current : Bool → ℕ → Option PhotoSnapshot → PhotoWorld → PhotoWorld
  unless_current deletes reference none w = cleanup deletes (some reference) w
  unless_current deletes reference (some current) w =
      if opt_eq current.reference (some reference) then w else cleanup deletes (some reference) w

  -- `_compensate`
  abbrev pub compensate : Upload → PhotoWorld → PhotoWorld
  compensate c w =
      if c.can_review
      then unless_current c.deletes c.reference (get_photo D c.user_id w.db) w
      else w

  abbrev pub with_object : ℕ → PhotoWorld → PhotoWorld
  with_object key w = record w { objects = key ∷ w.objects }

  -- The answer to a change: the photo before is cleaned up, and the row of the user is read.
  abbrev pub finish_change : ℕ → Bool → PhotoSnapshot → PhotoWorld → Option PhotoError × PhotoWorld
  finish_change user deletes previous w = (
    if is_none (get_user_response_by_id D user w.db) then some photo_user_not_found else none,
    cleanup deletes previous.reference w,
  )

  abbrev pub after_replace :
      Upload → PhotoSnapshot → Bool → PhotoWorld → Option PhotoError × PhotoWorld
  after_replace c previous false w = (some photo_conflict, cleanup c.deletes (some c.reference) w)
  after_replace c previous true w = finish_change c.user_id c.deletes previous w

  abbrev pub after_commit :
      Upload → PhotoSnapshot → WriteOutcome → PhotoWorld → Option PhotoError × PhotoWorld
  after_commit c previous written w =
      let (changed, db) = replace D c.user_id previous.url (some c.url) (some c.reference) w.db in
      after_replace c previous changed (record w { db = db })
  after_commit c previous lost_written w =
      let (changed, db) = replace D c.user_id previous.url (some c.url) (some c.reference) w.db in
      (some photo_update_failed, compensate c (record w { db = db }))
  after_commit c previous lost_unwritten w = (some photo_update_failed, compensate c w)

  abbrev pub after_put :
      Upload → PhotoSnapshot → WriteOutcome → PhotoWorld → Option PhotoError × PhotoWorld
  after_put c previous written w =
      after_commit c previous c.commit (c.others (with_object (G.key_of c.reference) w))
  after_put c previous lost_written w = (
    some photo_unavailable,
    cleanup c.deletes (some c.reference) (with_object (G.key_of c.reference) w),
  )
  after_put c previous lost_unwritten w =
      (some photo_unavailable, cleanup c.deletes (some c.reference) w)

  abbrev pub upload_for :
      Upload → Option PhotoSnapshot → PhotoWorld → Option PhotoError × PhotoWorld
  upload_for c none w = (some photo_user_not_found, w)
  upload_for c (some previous) w =
      if fits_upload c.chunks 0
      then (if c.is_image then after_put c previous c.put w else (some photo_invalid, w))
      else (some photo_too_large, w)

  -- `none` is the success, whose answer is the row of the user.
  unfoldable pub upload : Upload → PhotoWorld → Option PhotoError × PhotoWorld
  upload c w = upload_for c (get_photo D c.user_id w.db) w

  -- What a deletion meets.
  pub record Removal : Type 0 where
    pub user_id : ℕ
    pub commit : WriteOutcome
    pub deletes : Bool
    -- what other requests do before the commit
    pub others : PhotoWorld → PhotoWorld

  abbrev pub after_clear :
      Removal → PhotoSnapshot → Bool → PhotoWorld → Option PhotoError × PhotoWorld
  after_clear c previous false w = (some photo_conflict, w)
  after_clear c previous true w = finish_change c.user_id c.deletes previous w

  abbrev pub clear :
      Removal → PhotoSnapshot → WriteOutcome → PhotoWorld → Option PhotoError × PhotoWorld
  clear c previous written w =
      let (changed, db) = replace D c.user_id previous.url none none w.db in
      after_clear c previous changed (record w { db = db })
  clear c previous lost_written w =
      let (changed, db) = replace D c.user_id previous.url none none w.db in
      (some photo_update_failed, record w { db = db })
  clear c previous lost_unwritten w = (some photo_update_failed, w)

  abbrev pub clear_for :
      Removal → Option PhotoSnapshot → PhotoWorld → Option PhotoError × PhotoWorld
  clear_for c none w = (some photo_user_not_found, w)
  clear_for c (some previous) w = clear c previous c.commit (c.others w)

  -- `ProfilePhotoService.delete`
  unfoldable pub delete_photo : Removal → PhotoWorld → Option PhotoError × PhotoWorld
  delete_photo c w = clear_for c (get_photo D c.user_id w.db) w

  -- The object of a key, or the error that the service raises.
  pub data PhotoRead : Type 0 where
    photo_data : ℕ → PhotoRead
    photo_error : PhotoError → PhotoRead

  abbrev pub read_object : Bool → ℕ → PhotoWorld → PhotoRead
  read_object reads key w =
      if not reads
      then photo_error photo_unavailable
      else (if any_row (λ k. k == key) w.objects
          then photo_data key
          else photo_error photo_not_found)

  abbrev pub read_reference : Bool → Option ℕ → PhotoWorld → PhotoRead
  read_reference reads none w = photo_error photo_not_found
  read_reference reads (some reference) w =
      if G.storage_of reference == G.identity
      then read_object reads (G.key_of reference) w
      else photo_error photo_unavailable

  abbrev pub read_photo_for : Bool → Option ℕ → Option PhotoSnapshot → PhotoWorld → PhotoRead
  read_photo_for reads asked none w = photo_error photo_user_not_found
  read_photo_for reads asked (some current) w =
      if is_some asked && not (opt_eq current.url asked)
      then photo_error photo_not_found
      else read_reference reads current.reference w

  -- `ProfilePhotoService.read`, where `asked` is the URL with the version that is asked for, and
  -- `reads` is whether the storage answers.
  unfoldable pub read_photo : ℕ → Option ℕ → Bool → PhotoWorld → PhotoRead
  read_photo user asked reads w = read_photo_for reads asked (get_photo D user w.db) w
