-- ===== src/Beneficiaries.antt =====
-- Saved recipients: BeneficiaryService (backend/app/modules/beneficiaries/service.py). The
-- beneficiary that update and delete change is one that get_owned_beneficiary loaded.
use online_banking_system.Prelude.{ℕ, Option, none, some, [], ◌∷◌, ◌==◌}
use online_banking_system.Table.{insert, update, find_by}
use online_banking_system.Db.{not_found, Account, Beneficiary, BeneficiaryStatus, Customer, Db}
use online_banking_system.Session.Actions.{Action, ◌>>=◌, ◌>>◌, pure, check, modify, commit, send}
use online_banking_system.Session.Check.{Result, or_raise}
use online_banking_system.Session.Messages.{audit, AuditAction}
use online_banking_system.Accounts.{given, given_some}

-- CreateBeneficiaryRequest
pub record BeneficiaryRequest : Type 0 where
  pub beneficiary_account_number : ℕ
  pub beneficiary_name : ℕ
  pub nickname : Option ℕ

abbrev pub new_beneficiary : ℕ → BeneficiaryRequest → Beneficiary
new_beneficiary customer_id payload = record {
  customer_id = customer_id;
  account_number = payload.beneficiary_account_number;
  name = payload.beneficiary_name;
  nickname = payload.nickname;
  status = BeneficiaryStatus.active;
  deleted_at = none;
}

unfoldable pub create_beneficiary_row : ℕ → Beneficiary → Db → Db
create_beneficiary_row id b db = record db { beneficiaries = insert id b db.beneficiaries }

-- BeneficiaryRepository.save
unfoldable pub update_beneficiary : ℕ → (Beneficiary → Beneficiary) → Db → Db
update_beneficiary id f db = record db { beneficiaries = update id f db.beneficiaries }

-- AccountRepository.get_by_account_number
unfoldable pub target_account : ℕ → Db → Result (ℕ × Account)
target_account number db =
    or_raise (find_by (λ a. a.account_number == number) db.accounts) not_found

unfoldable pub create_beneficiary : ℕ → Customer → BeneficiaryRequest → Action ℕ
unfolding target_account create_beneficiary_row
create_beneficiary id customer payload = do
  target ← check (target_account payload.beneficiary_account_number)
  modify (create_beneficiary_row id (new_beneficiary customer.id payload))
  commit
  send (audit customer.user_id AuditAction.beneficiary_added id ∷ [])
  pure id

unfoldable pub rename_beneficiary : ℕ → Option ℕ → Option ℕ → Action (Unit {0})
unfolding update_beneficiary
rename_beneficiary id beneficiary_name nickname = do
  modify (
      update_beneficiary id (λ b. record b {
        name = given beneficiary_name b.name;
        nickname = given_some nickname b.nickname;
      }))
  commit

abbrev pub removed_beneficiary : ℕ → Beneficiary → Beneficiary
removed_beneficiary now b = record b { status = BeneficiaryStatus.deleted; deleted_at = some now }

unfoldable pub delete_own_beneficiary : ℕ → ℕ → Action (Unit {0})
unfolding update_beneficiary
delete_own_beneficiary now id = do modify (update_beneficiary id (removed_beneficiary now)); commit
