-- ===== src/Authentication/Deletion.antt =====
-- `delete_account`.
pub mod Removed
use b4fast_api.Prelude.{ℕ, ◌==◌, Bool, true, Option, none, some, List}
use b4fast_api.Cache.{Redis}
use b4fast_api.Cache.Keys.{Key, Value, key_eq, account_delete}
use b4fast_api.Codes.{Round}
use b4fast_api.Sessions.{delete_account_tokens}
use b4fast_api.Outbox.{Notification, account_deleted}
use b4fast_api.Lifecycle.{Crypto, notification_row}
use b4fast_api.Accounts.{
  User, Tables, Accounts, AccountError, account_delete_confirmation_required, integrity_error,
  Reply, replied, refused,
}
use b4fast_api.Accounts.Profile.{get_user_response_by_id}
use b4fast_api.Accounts.Roles as Roles
use b4fast_api.Authentication.{
  AuthErrorCode, user_not_found, repository, change_failed, Attempt, succeeded, rejected, Action,
  ◌>>=◌, ◌>>◌, return, require, Env, World, ensure_login_enabled, ensure_email_enabled,
  change_cache,
}
use b4fast_api.Authentication.Confirmation.{found_user, confirm}

-- What the notice is made of beside the user.
pub record DeletionNotice : Type 0 where
  pub crypto : Crypto
  -- `f"account-deleted:{user_id}"`
  pub key : ℕ → ℕ
  pub language : ℕ

module _ (E : Env) (R : Redis Key Value key_eq) (D : Tables) where
  -- `Users.delete_account`: its errors are raised again, but for one that is no `AuthException`.
  abbrev pub removed_account :
      World R D → Reply (Option ℕ) (Accounts D) → Attempt (Option ℕ) (World R D)
  removed_account w (replied photo db) = succeeded photo (record w { db = db })
  removed_account w (refused integrity_error) = rejected (change_failed account_delete) w
  removed_account w (refused e) = rejected (repository e) w

  abbrev pub notice_of : DeletionNotice → ℕ → User → Notification
  notice_of notice now u =
      notification_row notice.crypto now (notice.key u.id) account_deleted u.email u.name
        notice.language E.blank

  -- Its result is the photo that the clean-up then gets; the wake-up at the end changes no state.
  -- `checkouts` are the users that a billing checkout names.
  unfoldable pub delete_account :
      DeletionNotice → List ℕ → ℕ → ℕ → ℕ → ℕ → List (Round R) → Action (World R D) (Option ℕ)
  delete_account notice checkouts now user email code rounds = do
    ensure_login_enabled E R D
    ensure_email_enabled E R D
    u ← λ w. found_user E R D (get_user_response_by_id D user w.db) w
    require (E.casefold u.email == E.casefold (E.strip email))
        (repository account_delete_confirmation_required)
    confirm E R D account_delete true now user code rounds
    photo ← λ w. removed_account w (
        Roles.delete_account D E.casefold E.strip checkouts user email
          (some (notice_of notice now u)) w.db)
    change_cache E R D (delete_account_tokens R now user)
    return photo
