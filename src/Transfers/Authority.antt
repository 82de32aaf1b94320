-- ===== src/Transfers/Authority.antt =====
-- Who may confirm a transfer or get a new code for it.
use online_banking_system.Prelude.{ℕ, ◌≡◌, refl, false, some}
use online_banking_system.Table.{lookup}
use online_banking_system.Db.{not_found, Transaction, Db, Customer}
use online_banking_system.Session.{open_session, ◌>>=◌}
use online_banking_system.Session.Check.{err}
use online_banking_system.Transfers.{
  Others, Settings, customer_is_sender, get_owned_pending_transaction, get_challenge,
  confirm_transfer, resend_otp,
}

stranger :
    (customer : Customer) (id : ℕ) (row : Transaction) (db : Db)
    → lookup id db.transactions ≡ some row
    → customer_is_sender db customer row ≡ false
    → get_challenge customer id db ≡ err not_found
unfolding get_challenge get_owned_pending_transaction
stranger customer id row db found other = rw found (rw other refl)

-- Whoever is not the customer of the sending account, the receiver included, can neither confirm
-- the transfer, with any code, nor get a new code for it: both raise NotFoundError, as for an
-- unknown transaction, and leave the session as it was.
pub only_sender :
    (hash_otp_code : ℕ → ℕ) (others_read : Db → Db) (others_lock : Others) (settings : Settings)
    (now fresh_hash code : ℕ) (customer : Customer) (id : ℕ) (row : Transaction) (db : Db)
    → lookup id db.transactions ≡ some row
    → customer_is_sender db customer row ≡ false
    → (confirm_transfer hash_otp_code others_read others_lock settings now customer id code
          (open_session db)
        ≡ (err not_found, open_session db))
      × (resend_otp settings now fresh_hash customer id (open_session db)
          ≡ (err not_found, open_session db))
unfolding confirm_transfer resend_otp ◌>>=◌
only_sender hash_otp_code a b settings now fresh_hash code customer id row db found other =
    let refused = stranger customer id row db found other in (rw refused refl, rw refused refl)
