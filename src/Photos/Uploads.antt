-- ===== src/Photos/Uploads.antt =====
-- An upload keeps the photo that the user shows in the storage, however it ends.
use b4fast_api.Prelude.{
  ℕ, ◌≡◌, refl, Bool, true, false, ◌==◌, opt_eq, Option, none, some, List, Bool-cases, inl, inr,
  arith, ==-refl, opt_eq_refl,
}
use b4fast_api.Accounts.{Tables}
use b4fast_api.Photos.{
  PhotoSnapshot, get_photo, replace, StorageEnv, WriteOutcome, written, lost_written,
  lost_unwritten, PhotoWorld, Upload, cleanup, unless_current, compensate, with_object,
  after_commit, after_put, upload_for, upload, fits_upload,
}
use b4fast_api.Photos.Backed.{
  has_key, InStorage, shown, IsBacked, Apart, cleanup-IsBacked, with_object-InStorage, changed,
  unchanged, replace-Replaced, replace-one_row,
}

module _ (G : StorageEnv) (D : Tables) where
  -- The photo is in the storage, and so is the new object, which the user does not show.
  pub record IsFresh (user reference : ℕ) (w : PhotoWorld G D) : Type 0 where
    pub backed : IsBacked G D user w
    pub apart : Apart G D user (G.key_of reference) (shown G D user w.db)
    pub there : has_key G D user (G.key_of reference) w.objects ≡ true

  -- A clean-up of what the user may have shown before.
  cleanup_old :
      (user reference : ℕ) (deletes : Bool) (o : Option ℕ) (w : PhotoWorld G D)
      → shown G D user w.db ≡ some reference
      → Apart G D user (G.key_of reference) o
      → IsBacked G D user w
      → IsBacked G D user (cleanup G D deletes o w)
  cleanup_old user reference deletes none w e apart h = h
  cleanup_old user reference deletes (some old) w e apart h =
      let other : (G.key_of reference == G.key_of old) ≡ false = ground (arith, apart) in
      cleanup-IsBacked G D user deletes old w (rw e other) h

  unless_current-IsBacked :
      (user reference : ℕ) (deletes : Bool) (o : Option PhotoSnapshot) (w : PhotoWorld G D)
      → get_photo D user w.db ≡ o
      → IsBacked G D user w
      → (opt_eq (shown G D user w.db) (some reference) ≡ false
          → Apart G D user (G.key_of reference) (shown G D user w.db))
      → IsBacked G D user (unless_current G D deletes reference o w)
  unless_current-IsBacked user reference deletes none w e h apart =
      cleanup-IsBacked G D user deletes reference w (rw e tt) h
  unless_current-IsBacked user reference deletes (some current) w e h apart =
      elim (Bool-cases (opt_eq current.reference (some reference))) [
        | inl same ↦ rw same h
        | inr other ↦
            rw other (cleanup-IsBacked G D user deletes reference w (apart (rw e other)) h)
      ]

  compensate-IsBacked :
      (c : Upload G D) (w : PhotoWorld G D)
      → IsBacked G D c.user_id w
      → (opt_eq (shown G D c.user_id w.db) (some c.reference) ≡ false
          → Apart G D c.user_id (G.key_of c.reference) (shown G D c.user_id w.db))
      → IsBacked G D c.user_id (compensate G D c w)
  compensate-IsBacked c w h apart = elim (Bool-cases c.can_review) [
    | inl t ↦ rw t (unless_current-IsBacked c.user_id c.reference c.deletes _ w refl h apart)
    | inr f ↦ rw f h
  ]

  new-InStorage :
      (user reference : ℕ) (objects : List ℕ)
      → has_key G D user (G.key_of reference) objects ≡ true
      → InStorage G D user objects (some reference)
  new-InStorage user reference objects there = ground (arith, there)

  -- After the replacement the user shows the new photo or the one before, and either is stored.
  replace-IsBacked :
      (c : Upload G D) (expected : Option ℕ) (w : PhotoWorld G D)
      → IsFresh c.user_id c.reference w
      → IsBacked G D c.user_id
          (record w { db = (replace D c.user_id expected (some c.url) (some c.reference) w.db).1 })
  replace-IsBacked c expected w h =
      let one =
        replace-one_row G D c.user_id expected (some c.url) (some c.reference) w.db
          h.backed.one_row in
      elim (replace-Replaced G D c.user_id expected (some c.url) (some c.reference) w.db
        h.backed.one_row) [
          | changed b e ↦ record {
            in_storage = rw e (new-InStorage c.user_id c.reference w.objects h.there);
            one_row = one;
          }
          | unchanged b e ↦ record { in_storage = rw e h.backed.in_storage; one_row = one }
        ]

  after_commit-IsBacked :
      (c : Upload G D) (previous : PhotoSnapshot) (o : WriteOutcome) (w : PhotoWorld G D)
      → IsFresh c.user_id c.reference w
      → Apart G D c.user_id (G.key_of c.reference) previous.reference
      → IsBacked G D c.user_id (after_commit G D c previous o w).1
  after_commit-IsBacked c previous written w h old =
      let backed = replace-IsBacked c previous.url w h in
      elim (replace-Replaced G D c.user_id previous.url (some c.url) (some c.reference) w.db
        h.backed.one_row) [
          | changed b e ↦
              rw b (cleanup_old c.user_id c.reference c.deletes previous.reference _ e old backed)
          | unchanged b e ↦
              rw b (cleanup-IsBacked G D c.user_id c.deletes c.reference _ (rw e h.apart) backed)
        ]
  after_commit-IsBacked c previous lost_written w h old =
      let backed = replace-IsBacked c previous.url w h in
      elim (replace-Replaced G D c.user_id previous.url (some c.url) (some c.reference) w.db
        h.backed.one_row) [
          | changed b e ↦
              compensate-IsBacked c _ backed
                (λ other. ground (arith, rw e at other, opt_eq_refl (some c.reference)))
          | unchanged b e ↦ compensate-IsBacked c _ backed (λ other. rw e h.apart)
        ]
  after_commit-IsBacked c previous lost_unwritten w h old =
      compensate-IsBacked c w h.backed (λ other. h.apart)

  pub with_object-IsFresh :
      (user reference : ℕ) (w : PhotoWorld G D)
      → IsBacked G D user w
      → Apart G D user (G.key_of reference) (shown G D user w.db)
      → IsFresh user reference (with_object G D (G.key_of reference) w)
  with_object-IsFresh user reference w h apart = record {
    backed = record {
      in_storage =
          with_object-InStorage G D user (G.key_of reference) (shown G D user w.db) w.objects
            h.in_storage;
      one_row = h.one_row;
    };
    apart = apart;
    there = rw (==-refl (G.key_of reference)) refl;
  }

  after_put-IsBacked :
      (c : Upload G D) (previous : PhotoSnapshot) (o : WriteOutcome) (w : PhotoWorld G D)
      → IsBacked G D c.user_id w
      → Apart G D c.user_id (G.key_of c.reference) (shown G D c.user_id w.db)
      → Apart G D c.user_id (G.key_of c.reference) previous.reference
      → ((v : PhotoWorld G D)
          → IsFresh c.user_id c.reference v
          → IsFresh c.user_id c.reference (c.others v))
      → IsBacked G D c.user_id (after_put G D c previous o w).1
  after_put-IsBacked c previous written w h apart old keep =
      after_commit-IsBacked c previous c.commit _
        (keep _ (with_object-IsFresh c.user_id c.reference w h apart)) old
  after_put-IsBacked c previous lost_written w h apart old keep =
      cleanup-IsBacked G D c.user_id c.deletes c.reference _ apart
        (with_object-IsFresh c.user_id c.reference w h apart).backed
  after_put-IsBacked c previous lost_unwritten w h apart old keep =
      cleanup-IsBacked G D c.user_id c.deletes c.reference w apart h

  upload_for-IsBacked :
      (c : Upload G D) (o : Option PhotoSnapshot) (w : PhotoWorld G D)
      → get_photo D c.user_id w.db ≡ o
      → IsBacked G D c.user_id w
      → Apart G D c.user_id (G.key_of c.reference) (shown G D c.user_id w.db)
      → ((v : PhotoWorld G D)
          → IsFresh c.user_id c.reference v
          → IsFresh c.user_id c.reference (c.others v))
      → IsBacked G D c.user_id (upload_for G D c o w).1
  upload_for-IsBacked c none w e h apart keep = h
  upload_for-IsBacked c (some previous) w e h apart keep =
      elim (Bool-cases (fits_upload c.chunks 0)) [
        | inr f ↦ rw f h
        | inl t ↦ elim (Bool-cases c.is_image) [
          | inr f ↦ rw (t, f) h
          | inl i ↦ rw (t, i) (after_put-IsBacked c previous c.put w h apart (rw e at apart) keep)
        ]
      ]

  -- However an upload of a photo ends, refused, with a failed write, a lost commit, a conflict or a
  -- failed deletion, the photo that the user then shows is in the storage, where its reference
  -- names the storage in use. The condition is that this held before, that one row at most has the
  -- id of the user, that the new object has another key than the photo shown, and that what other
  -- requests do before the commit keeps these and the new object.
  pub upload-IsBacked :
      (c : Upload G D) (w : PhotoWorld G D)
      → IsBacked G D c.user_id w
      → Apart G D c.user_id (G.key_of c.reference) (shown G D c.user_id w.db)
      → ((v : PhotoWorld G D)
          → IsFresh c.user_id c.reference v
          → IsFresh c.user_id c.reference (c.others v))
      → IsBacked G D c.user_id (upload G D c w).1
  unfolding upload
  upload-IsBacked c w h apart keep = upload_for-IsBacked c _ w refl h apart keep
