-- ===== src/Schedules/Advanced.antt =====
-- What a turn of the sweep makes of a scheduled payment.
use online_banking_system.Prelude.{
  ℕ, ◌≡◌, refl, Bool, true, false, some, ◌∙◌, arith, Bool-cases, inl, inr,
}
use online_banking_system.Table.{lookup, lookup-update}
use online_banking_system.Db.{
  Error, Reason, rule, integrity_error, is_domain_error, ScheduledPayment, Db, Customer,
}
use online_banking_system.Db.Constraints.{meets_constraints}
use online_banking_system.Session.{Session, ◌>>=◌, catch_domain_error, open_session}
use online_banking_system.Session.Check.{Result, ok, err}
use online_banking_system.Transactions.{Stamp}
use online_banking_system.Transfers.{Others, Moment, execute_scheduled_transfer}
use online_banking_system.Schedules.{
  advance_next_run, succeeded, missed, record_success, record_failure, present, transfer_request,
  charge, miss, run_for, run_schedule,
}
use online_banking_system.Schedules.Standing.{HasSchedule, scheduled_transfer-Keeps}

-- The payment has run at `now`, and its next run is one period after the one that was due.
pub record HasAdvanced (id now : ℕ) (p : ScheduledPayment) (db : Db) : Type 0 where
  pub row : ScheduledPayment
  pub found : lookup id db.scheduled_payments ≡ some row
  pub next_run : row.next_run_at ≡ advance_next_run p.next_run_at p.frequency
  pub executed : row.last_executed_at ≡ some now

module _ (id now : ℕ) (p : ScheduledPayment) (db : Db) (h : HasSchedule id p db) where
  success-HasAdvanced : (tx : ℕ) → HasAdvanced id now p (record_success id now tx p db)
  unfolding record_success
  success-HasAdvanced tx = record {
    row = succeeded now tx p p;
    found =
        lookup-update id id (succeeded now tx p) db.scheduled_payments ∙ ground (arith, h.found);
    next_run = refl;
    executed = refl;
  }

  failure-HasAdvanced : (r : Reason) → HasAdvanced id now p (record_failure id now r p db)
  unfolding record_failure
  failure-HasAdvanced r = record {
    row = missed now r p p;
    found = lookup-update id id (missed now r p) db.scheduled_payments ∙ ground (arith, h.found);
    next_run = refl;
    executed = refl;
  }

module _ (others : Others) (stamp : Stamp) (id : ℕ) (p : ScheduledPayment) (customer : Customer)
    (s : Session) where
  abbrev transfer : Result ℕ × Session
  transfer = execute_scheduled_transfer others stamp customer (transfer_request p) s

  abbrev turn : Result Bool × Session
  turn = run_for others stamp id p (some customer) s

  turn_charged :
      (tx : ℕ)
      → transfer.0 ≡ ok tx
      → meets_constraints (record_success id stamp.now tx p transfer.1.db) ≡ true
      → turn.1.committed ≡ record_success id stamp.now tx p transfer.1.db
  unfolding run_for charge catch_domain_error ◌>>=◌
  turn_charged tx e met = rw e (rw met refl)

  turn_broken :
      (tx : ℕ)
      → transfer.0 ≡ ok tx
      → meets_constraints (record_success id stamp.now tx p transfer.1.db) ≡ false
      → turn.0 ≡ err integrity_error
  unfolding run_for charge catch_domain_error ◌>>=◌
  turn_broken tx e broken = rw e (rw broken refl)

  turn_missed :
      (e : Error)
      → transfer.0 ≡ err e
      → is_domain_error e ≡ true
      → meets_constraints (record_failure id stamp.now (rule e) p transfer.1.db) ≡ true
      → turn.1.committed ≡ record_failure id stamp.now (rule e) p transfer.1.db
  unfolding run_for charge miss catch_domain_error ◌>>=◌
  turn_missed e raised domain met = rw raised (rw domain (rw met refl))

  turn_miss_broken :
      (e : Error)
      → transfer.0 ≡ err e
      → is_domain_error e ≡ true
      → meets_constraints (record_failure id stamp.now (rule e) p transfer.1.db) ≡ false
      → turn.0 ≡ err integrity_error
  unfolding run_for charge miss catch_domain_error ◌>>=◌
  turn_miss_broken e raised domain broken = rw raised (rw domain (rw broken refl))

  turn_raises : (e : Error) → transfer.0 ≡ err e → is_domain_error e ≡ false → turn.0 ≡ err e
  unfolding run_for charge catch_domain_error ◌>>=◌
  turn_raises e raised other = rw raised (rw other refl)

  turn-HasAdvanced :
      (b : Bool)
      → HasSchedule id p transfer.1.db
      → turn.0 ≡ ok b
      → HasAdvanced id stamp.now p turn.1.committed
  turn-HasAdvanced b h returned = go transfer.0 refl
    where
      go : (r : Result ℕ) → transfer.0 ≡ r → HasAdvanced id stamp.now p turn.1.committed
      go (ok tx) e =
          elim (Bool-cases (meets_constraints (record_success id stamp.now tx p transfer.1.db))) [
            | inl met ↦
                rw (turn_charged tx e met) (success-HasAdvanced id stamp.now p transfer.1.db h tx)
            | inr broken ↦ cc (returned, turn_broken tx e broken)
          ]
      go (err x) e = elim (Bool-cases (is_domain_error x)) [
        | inr other ↦ cc (returned, turn_raises x e other)
        | inl domain ↦
            elim (Bool-cases
              (meets_constraints (record_failure id stamp.now (rule x) p transfer.1.db))) [
                | inl met ↦
                    rw (turn_missed x e domain met)
                      (failure-HasAdvanced id stamp.now p transfer.1.db h (rule x))
                | inr broken ↦ cc (returned, turn_miss_broken x e domain broken)
              ]
      ]

-- A turn of the sweep for a known customer that returns, whether the payment was executed or
-- missed, has committed that the payment ran now and that its next run is one period after the
-- one that was due, if no other request changes its row meanwhile.
pub run_schedule-HasAdvanced :
    (others : Others) (stamp : Stamp) (id : ℕ) (p : ScheduledPayment) (customer : Customer)
    (db : Db) (b : Bool)
    → HasSchedule id p db
    → present p.customer_id (lookup p.customer_id db.customers) ≡ some customer
    → ((at : Moment) (d : Db) → HasSchedule id p d → HasSchedule id p (others at d))
    → (run_schedule others stamp (id, p) (open_session db)).0 ≡ ok b
    → HasAdvanced id stamp.now p (run_schedule others stamp (id, p) (open_session db)).1.committed
unfolding run_schedule ◌>>=◌
run_schedule-HasAdvanced others stamp id p customer db b h known quiet returned = rw known (
    turn-HasAdvanced others stamp id p customer (open_session db) b
      ((scheduled_transfer-Keeps id p others stamp customer (transfer_request p) quiet).at
        (open_session db) (record { seen = h; saved = h })).seen
      (rw known at returned))
