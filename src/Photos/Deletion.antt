-- ===== src/Photos/Deletion.antt =====
-- A deletion keeps the photo that the user then shows in the storage.
use b4fast_api.Prelude.{ℕ, ◌≡◌, Bool, Option, none, some}
use b4fast_api.Accounts.{Tables}
use b4fast_api.Photos.{
  PhotoSnapshot, replace, StorageEnv, WriteOutcome, written, lost_written, lost_unwritten,
  PhotoWorld, cleanup, Removal, clear, clear_for, delete_photo,
}
use b4fast_api.Photos.Backed.{
  shown, IsBacked, cleanup-IsBacked, changed, unchanged, replace-Replaced, replace-one_row,
}

module _ (G : StorageEnv) (D : Tables) where
  cleared-IsBacked :
      (user : ℕ) (expected : Option ℕ) (w : PhotoWorld G D)
      → IsBacked G D user w
      → IsBacked G D user (record w { db = (replace D user expected none none w.db).1 })
  cleared-IsBacked user expected w h =
      let one = replace-one_row G D user expected none none w.db h.one_row in
      elim (replace-Replaced G D user expected none none w.db h.one_row) [
        | changed b e ↦ record { in_storage = rw e tt; one_row = one }
        | unchanged b e ↦ record { in_storage = rw e h.in_storage; one_row = one }
      ]

  cleanup_hidden :
      (user : ℕ) (deletes : Bool) (o : Option ℕ) (w : PhotoWorld G D)
      → shown G D user w.db ≡ none
      → IsBacked G D user w
      → IsBacked G D user (cleanup G D deletes o w)
  cleanup_hidden user deletes none w e h = h
  cleanup_hidden user deletes (some old) w e h = cleanup-IsBacked G D user deletes old w (rw e tt) h

  clear-IsBacked :
      (c : Removal G D) (previous : PhotoSnapshot) (o : WriteOutcome) (w : PhotoWorld G D)
      → IsBacked G D c.user_id w
      → IsBacked G D c.user_id (clear G D c previous o w).1
  clear-IsBacked c previous written w h =
      let backed = cleared-IsBacked c.user_id previous.url w h in
      elim (replace-Replaced G D c.user_id previous.url none none w.db h.one_row) [
        | changed b e ↦ rw b (cleanup_hidden c.user_id c.deletes previous.reference _ e backed)
        | unchanged b e ↦ rw b backed
      ]
  clear-IsBacked c previous lost_written w h = cleared-IsBacked c.user_id previous.url w h
  clear-IsBacked c previous lost_unwritten w h = h

  clear_for-IsBacked :
      (c : Removal G D) (o : Option PhotoSnapshot) (w : PhotoWorld G D)
      → IsBacked G D c.user_id w
      → ((v : PhotoWorld G D) → IsBacked G D c.user_id v → IsBacked G D c.user_id (c.others v))
      → IsBacked G D c.user_id (clear_for G D c o w).1
  clear_for-IsBacked c none w h keep = h
  clear_for-IsBacked c (some previous) w h keep =
      clear-IsBacked c previous c.commit (c.others w) (keep w h)

  pub delete_photo-IsBacked :
      (c : Removal G D) (w : PhotoWorld G D)
      → IsBacked G D c.user_id w
      → ((v : PhotoWorld G D) → IsBacked G D c.user_id v → IsBacked G D c.user_id (c.others v))
      → IsBacked G D c.user_id (delete_photo G D c w).1
  unfolding delete_photo
  delete_photo-IsBacked c w h keep = clear_for-IsBacked c _ w h keep
