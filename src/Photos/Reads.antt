-- ===== src/Photos/Reads.antt =====
-- What is read of the photo of a user after an upload.
use b4fast_api.Prelude.{
  ℕ, ◌≡◌, refl, Bool, true, ◌&&◌, ◌==◌, Option, none, some, any_row, and_then, Bool-cases, inl, inr,
  arith,
}
use b4fast_api.Accounts.{Tables}
use b4fast_api.Photos.{
  PhotoSnapshot, get_photo, StorageEnv, WriteOutcome, written, lost_written, lost_unwritten,
  PhotoWorld, Upload, cleanup, after_commit, after_put, upload_for, upload, fits_upload, photo_data,
  read_photo, read_photo_for,
}
use b4fast_api.Photos.Backed.{shown, IsBacked, Apart, changed, unchanged, replace-Replaced}
use b4fast_api.Photos.Uploads.{IsFresh, with_object-IsFresh, upload-IsBacked}

module _ (G : StorageEnv) (D : Tables) where
  -- A photo that is shown and stored is read.
  read_for_shown :
      (reference : ℕ) (o : Option PhotoSnapshot) (w : PhotoWorld G D)
      → and_then o (λ p. p.reference) ≡ some reference
      → (G.storage_of reference == G.identity) ≡ true
      → any_row (λ k. k == G.key_of reference) w.objects ≡ true
      → read_photo_for G D true none o w ≡ photo_data (G.key_of reference)
  read_for_shown reference none w e here there = cc
  read_for_shown reference (some p) w e here there = rw (e, here, there) refl

  shown-read :
      (user reference : ℕ) (w : PhotoWorld G D)
      → IsBacked G D user w
      → shown G D user w.db ≡ some reference
      → (G.storage_of reference == G.identity) ≡ true
      → read_photo G D user none true w ≡ photo_data (G.key_of reference)
  unfolding read_photo
  shown-read user reference w h e here =
      let backed = rw e at h.in_storage in
      read_for_shown reference (get_photo D user w.db) w e here (ground (arith, here, backed))

  cleanup-db :
      (deletes : Bool) (o : Option ℕ) (w : PhotoWorld G D) → (cleanup G D deletes o w).db ≡ w.db
  cleanup-db deletes none w = refl
  cleanup-db deletes (some old) w = elim (Bool-cases (G.storage_of old == G.identity && deletes)) [
    | inl t ↦ rw t refl
    | inr f ↦ rw f refl
  ]

  after_commit-shown :
      (c : Upload G D) (previous : PhotoSnapshot) (o : WriteOutcome) (w : PhotoWorld G D)
      → IsBacked G D c.user_id w
      → (after_commit G D c previous o w).0 ≡ none
      → shown G D c.user_id (after_commit G D c previous o w).1.db ≡ some c.reference
  after_commit-shown c previous written w h e =
      elim (replace-Replaced G D c.user_id previous.url (some c.url) (some c.reference) w.db
        h.one_row) [ changed b s ↦ rw (b, cleanup-db) s | unchanged b s ↦ cc (rw b at e) ]
  after_commit-shown c previous lost_written w h e = cc
  after_commit-shown c previous lost_unwritten w h e = cc

  after_put-shown :
      (c : Upload G D) (previous : PhotoSnapshot) (o : WriteOutcome) (w : PhotoWorld G D)
      → IsBacked G D c.user_id w
      → Apart G D c.user_id (G.key_of c.reference) (shown G D c.user_id w.db)
      → ((v : PhotoWorld G D)
          → IsFresh G D c.user_id c.reference v
          → IsFresh G D c.user_id c.reference (c.others v))
      → (after_put G D c previous o w).0 ≡ none
      → shown G D c.user_id (after_put G D c previous o w).1.db ≡ some c.reference
  after_put-shown c previous written w h apart keep e =
      after_commit-shown c previous c.commit _
        (keep _ (with_object-IsFresh G D c.user_id c.reference w h apart)).backed e
  after_put-shown c previous lost_written w h apart keep e = cc
  after_put-shown c previous lost_unwritten w h apart keep e = cc

  upload_for-shown :
      (c : Upload G D) (o : Option PhotoSnapshot) (w : PhotoWorld G D)
      → IsBacked G D c.user_id w
      → Apart G D c.user_id (G.key_of c.reference) (shown G D c.user_id w.db)
      → ((v : PhotoWorld G D)
          → IsFresh G D c.user_id c.reference v
          → IsFresh G D c.user_id c.reference (c.others v))
      → (upload_for G D c o w).0 ≡ none
      → shown G D c.user_id (upload_for G D c o w).1.db ≡ some c.reference
  upload_for-shown c none w h apart keep e = cc
  upload_for-shown c (some previous) w h apart keep e = elim (Bool-cases (fits_upload c.chunks 0)) [
    | inr f ↦ cc (rw f at e)
    | inl t ↦ elim (Bool-cases c.is_image) [
      | inr f ↦ cc (rw (t, f) at e)
      | inl i ↦ rw (t, i) (after_put-shown c previous c.put w h apart keep (rw (t, i) at e))
    ]
  ]

  upload-shown :
      (c : Upload G D) (w : PhotoWorld G D)
      → IsBacked G D c.user_id w
      → Apart G D c.user_id (G.key_of c.reference) (shown G D c.user_id w.db)
      → ((v : PhotoWorld G D)
          → IsFresh G D c.user_id c.reference v
          → IsFresh G D c.user_id c.reference (c.others v))
      → (upload G D c w).0 ≡ none
      → shown G D c.user_id (upload G D c w).1.db ≡ some c.reference
  unfolding upload
  upload-shown c w h apart keep e = upload_for-shown c _ w h apart keep e

  -- After an upload that succeeds, a read of the photo of the user answers the new object, where
  -- the storage answers. The condition is that of the uploads: the photo shown before was in the
  -- storage, one row at most has the id of the user, the new object has another key than that
  -- photo, its reference names the storage in use, and what other requests do before the commit
  -- keeps this and the new object.
  pub upload-read_photo :
      (c : Upload G D) (w : PhotoWorld G D)
      → IsBacked G D c.user_id w
      → Apart G D c.user_id (G.key_of c.reference) (shown G D c.user_id w.db)
      → ((v : PhotoWorld G D)
          → IsFresh G D c.user_id c.reference v
          → IsFresh G D c.user_id c.reference (c.others v))
      → (G.storage_of c.reference == G.identity) ≡ true
      → (upload G D c w).0 ≡ none
      → read_photo G D c.user_id none true (upload G D c w).1 ≡ photo_data (G.key_of c.reference)
  upload-read_photo c w h apart keep here e =
      shown-read c.user_id c.reference (upload G D c w).1 (upload-IsBacked G D c w h apart keep)
        (upload-shown c w h apart keep e) here
