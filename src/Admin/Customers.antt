-- ===== src/Admin/Customers.antt =====
-- The customers in the back office: their status, onboarding, deletion and restoration.
use online_banking_system.Prelude.{ℕ, true, none, some, [], ◌∷◌}
use online_banking_system.Db.{conflict, CustomerStatus, Db}
use online_banking_system.Session.Actions.{
  Action, ◌>>=◌, ◌>>◌, pure, check, modify, commit, send, wait, translate_integrity_error,
}
use online_banking_system.Session.Messages.{audit, notify, AuditAction, Channel, Template}
use online_banking_system.Auth.{RegisterRequest, new_user, create_user, create_customer_row}
use online_banking_system.Accounts.{update_customer}
use online_banking_system.Admin.Checks.{
  admin_get_customer, onboarding_checks, deletable_customer, restorable_customer,
}

unfoldable pub update_customer_status : ℕ → ℕ → CustomerStatus → Action (Unit {0})
unfolding admin_get_customer update_customer
update_customer_status admin customer_id status = do
  customer ← check (admin_get_customer customer_id)
  modify (update_customer customer_id (λ c. record c { status = status }))
  commit
  send (
      audit admin AuditAction.admin_customer_status_changed customer_id
      ∷ notify customer.user_id Channel.email Template.account_status_changed customer_id
      ∷ [])

-- The writes of create_customer: the user's address counts as verified.
unfoldable pub store_onboarded : ℕ → ℕ → RegisterRequest → Action (Unit {0})
unfolding create_user create_customer_row
store_onboarded user_id customer_id p =
    translate_integrity_error
      (do
        modify (create_user user_id (new_user p.email p.password_hash true))
        modify (create_customer_row customer_id user_id p)
        commit)
      conflict

-- `others` is what other requests commit between the pre-checks and the writes.
unfoldable pub create_customer : (Db → Db) → ℕ → ℕ → ℕ → RegisterRequest → Action ℕ
unfolding onboarding_checks store_onboarded
create_customer others admin user_id customer_id p = do
  check (onboarding_checks p)
  wait others
  store_onboarded user_id customer_id p
  send (audit admin AuditAction.admin_customer_created customer_id ∷ [])
  pure customer_id

unfoldable pub delete_customer : ℕ → ℕ → ℕ → Action (Unit {0})
unfolding deletable_customer update_customer
delete_customer admin now customer_id = do
  customer ← check (deletable_customer customer_id)
  modify (update_customer customer_id (λ c. record c { deleted_at = some now }))
  commit
  send (audit admin AuditAction.admin_customer_deleted customer_id ∷ [])

unfoldable pub restore_customer : ℕ → ℕ → Action ℕ
unfolding restorable_customer update_customer
restore_customer admin customer_id = do
  customer ← check (restorable_customer customer_id)
  modify (update_customer customer_id (λ c. record c { deleted_at = none }))
  commit
  send (audit admin AuditAction.admin_customer_restored customer_id ∷ [])
  pure customer_id
