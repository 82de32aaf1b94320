-- ===== src/Admin/Cards.antt =====
-- The cards in the back office.
use online_banking_system.Prelude.{ℕ, none, some, List, [], ◌∷◌}
use online_banking_system.Table.{insert, update}
use online_banking_system.Db.{Card, CardStatus, Db}
use online_banking_system.Session.Actions.{Action, ◌>>=◌, ◌>>◌, pure, check, modify, commit, send}
use online_banking_system.Session.Messages.{audit, AuditAction}
use online_banking_system.Cards.{block_card_row, generate_synthetic_pan, mask, as_text}
use online_banking_system.Admin.Checks.{get_account, present_card}

-- CardRepository.create
unfoldable pub new_card : ℕ → List ℕ → Card
unfolding mask
new_card account_id raw_card_number = record {
  account_id = account_id;
  masked_card_number = mask raw_card_number;
  status = CardStatus.active;
  blocked_at = none;
  deleted_at = none;
}

unfoldable pub create_card_row : ℕ → Card → Db → Db
create_card_row id c db = record db { cards = insert id c db.cards }

-- The prefix 400000 of generate_synthetic_pan
abbrev pub bin_prefix : List ℕ
bin_prefix = 4 ∷ 0 ∷ 0 ∷ 0 ∷ 0 ∷ 0 ∷ []

-- The nine random digits of the number come from outside.
unfoldable pub create_card : ℕ → ℕ → List ℕ → ℕ → Action ℕ
unfolding get_account new_card create_card_row generate_synthetic_pan
create_card admin id random_digits account_id = do
  account ← check (get_account account_id)
  modify (
      create_card_row id
        (new_card account_id (as_text (generate_synthetic_pan bin_prefix random_digits))))
  commit
  send (audit admin AuditAction.admin_card_created id ∷ [])
  pure id

unfoldable pub block_card : ℕ → ℕ → ℕ → Action ℕ
unfolding present_card block_card_row
block_card admin now card_id = do
  card ← check (present_card card_id)
  modify (block_card_row card_id now)
  commit
  send (audit admin AuditAction.admin_card_blocked card_id ∷ [])
  pure card_id

-- CardRepository.soft_delete
unfoldable pub delete_card_row : ℕ → ℕ → Db → Db
delete_card_row id now db = record db {
  cards = update id (λ c. record c { deleted_at = some now }) db.cards;
}

unfoldable pub delete_card : ℕ → ℕ → ℕ → Action (Unit {0})
unfolding present_card delete_card_row
delete_card admin now card_id = do
  card ← check (present_card card_id)
  modify (delete_card_row card_id now)
  commit
  send (audit admin AuditAction.admin_card_deleted card_id ∷ [])
