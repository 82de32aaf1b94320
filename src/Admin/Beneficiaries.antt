-- ===== src/Admin/Beneficiaries.antt =====
-- The beneficiaries in the back office.
use online_banking_system.Prelude.{ℕ, none, [], ◌∷◌}
use online_banking_system.Db.{Beneficiary, BeneficiaryStatus}
use online_banking_system.Session.Actions.{Action, ◌>>=◌, ◌>>◌, pure, check, modify, commit, send}
use online_banking_system.Session.Messages.{audit, AuditAction}
use online_banking_system.Beneficiaries.{update_beneficiary, removed_beneficiary}
use online_banking_system.Admin.Checks.{removable_beneficiary, restorable_beneficiary}

unfoldable pub delete_beneficiary : ℕ → ℕ → ℕ → Action (Unit {0})
unfolding removable_beneficiary update_beneficiary
delete_beneficiary admin now id = do
  beneficiary ← check (removable_beneficiary id)
  modify (update_beneficiary id (removed_beneficiary now))
  commit
  send (audit admin AuditAction.admin_beneficiary_deleted id ∷ [])

-- BeneficiaryRepository.restore
abbrev pub restored_beneficiary : Beneficiary → Beneficiary
restored_beneficiary b = record b { status = BeneficiaryStatus.active; deleted_at = none }

unfoldable pub restore_beneficiary : ℕ → ℕ → Action ℕ
unfolding restorable_beneficiary update_beneficiary
restore_beneficiary admin id = do
  beneficiary ← check (restorable_beneficiary id)
  modify (update_beneficiary id restored_beneficiary)
  commit
  send (audit admin AuditAction.admin_beneficiary_restored id ∷ [])
  pure id
