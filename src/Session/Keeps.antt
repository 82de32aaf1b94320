-- ===== src/Session/Keeps.antt =====
-- Invariants of the rows, one rule for each way to build an action.
use online_banking_system.Prelude.{
  ◌≡◌, refl, Bool, true, false, List, Bool-cases, inl, inr, if◌then◌else◌,
}
use online_banking_system.Db.{Error, is_domain_error, Db}
use online_banking_system.Db.Constraints.{meets_constraints}
use online_banking_system.Session.Check.{Result, ok, err}
use online_banking_system.Session.Messages.{Message}
use online_banking_system.Session.Actions.{
  Session, Action, pure, raise, check, modify, commit, rollback, send, wait, continue, ◌>>=◌, ◌>>◌,
  handled, try_except, caught, catch_domain_error, translated, translate_integrity_error,
  is_integrity_error,
}

-- `P` holds of the rows that the session sees and of the committed rows.
pub record Holds (P : Db → Type 0) (s : Session) : Type 0 where
  pub seen : P s.db
  pub saved : P s.committed

pub record Keeps {A : Type 0} (P : Db → Type 0) (m : Action A) : Type 0 where
  pub at : (s : Session) → Holds P s → Holds P (m s).1

module _ {A : Type 0} {P : Db → Type 0} where
  pub Keeps-raise : (e : Error) → Keeps P (raise {A = A} e)
  unfolding raise
  Keeps-raise e = record { at = λ _ held. held }

  pub Keeps-check : (f : Db → Result A) → Keeps P (check f)
  unfolding check
  Keeps-check f = record { at = λ _ held. held }

  pub Keeps-pure : (value : A) → Keeps P (pure value)
  unfolding pure
  Keeps-pure value = record { at = λ _ held. held }

  pub Keeps-if : (b : Bool) (m n : Action A) → Keeps P m → Keeps P n → Keeps P (if b then m else n)
  Keeps-if true m n of_m of_n = of_m
  Keeps-if false m n of_m of_n = of_n

  pub Holds-handled :
      (h : Error → Action A) (r : Result A) (s : Session)
      → ((e : Error) → Keeps P (h e))
      → Holds P s
      → Holds P (handled h r s).1
  Holds-handled h (ok a) s k w = w
  Holds-handled h (err e) s k w = elim (Bool-cases (is_domain_error e)) [
    | inl domain ↦ rw domain ((k e).at (rollback s) (record { seen = w.saved; saved = w.saved }))
    | inr other ↦ rw other w
  ]

  pub Keeps-try_except :
      (m : Action A) (h : Error → Action A)
      → Keeps P m
      → ((e : Error) → Keeps P (h e))
      → Keeps P (try_except m h)
  unfolding try_except
  Keeps-try_except m h km kh = record { at = λ s w. Holds-handled h (m s).0 (m s).1 kh (km.at s w) }

  Holds-caught :
      (h : Error → Action A) (r : Result A) (s : Session)
      → ((e : Error) → Keeps P (h e))
      → Holds P s
      → Holds P (caught h r s).1
  Holds-caught h (ok a) s k w = w
  Holds-caught h (err e) s k w = elim (Bool-cases (is_domain_error e)) [
    | inl domain ↦ rw domain ((k e).at s w)
    | inr other ↦ rw other w
  ]

  pub Keeps-catch :
      (m : Action A) (h : Error → Action A)
      → Keeps P m
      → ((e : Error) → Keeps P (h e))
      → Keeps P (catch_domain_error m h)
  unfolding catch_domain_error
  Keeps-catch m h km kh = record { at = λ s w. Holds-caught h (m s).0 (m s).1 kh (km.at s w) }

module _ {A : Type 0} {P : Db → Type 0} where
  Holds-translated :
      (e : Error) (r : Result A) (s : Session) → Holds P s → Holds P (translated e r s).1
  Holds-translated e (ok a) s w = w
  Holds-translated e (err x) s w = elim (Bool-cases (is_integrity_error x)) [
    | inl lost ↦ rw lost (record { seen = w.saved; saved = w.saved })
    | inr other ↦ rw other w
  ]

  pub Keeps-translate :
      (m : Action A) (e : Error) → Keeps P m → Keeps P (translate_integrity_error m e)
  unfolding translate_integrity_error
  Keeps-translate m e k = record { at = λ s w. Holds-translated e (m s).0 (m s).1 (k.at s w) }

module _ {A B : Type 0} {P : Db → Type 0} where
  continue-Holds :
      (r : Result A) (f : A → Action B) (s : Session)
      → ((a : A) → Keeps P (f a))
      → Holds P s
      → Holds P (continue r f s).1
  continue-Holds (ok a) f s k w = (k a).at s w
  continue-Holds (err e) f s k w = w

  pub bind-Holds :
      (first : Action A) (next : A → Action B) (s : Session)
      → Holds P (first s).1
      → ((value : A) → Keeps P (next value))
      → Holds P ((first >>= next) s).1
  unfolding ◌>>=◌
  bind-Holds first next s w of_next = continue-Holds (first s).0 next (first s).1 of_next w

  pub Keeps-bind :
      (first : Action A) (next : A → Action B)
      → Keeps P first
      → ((value : A) → Keeps P (next value))
      → Keeps P (first >>= next)
  unfolding ◌>>=◌
  Keeps-bind first next of_first of_next = record {
    at = λ s held. bind-Holds first next s (of_first.at s held) of_next;
  }

module _ {P : Db → Type 0} where
  pub Keeps-modify : (f : Db → Db) → ((db : Db) → P db → P (f db)) → Keeps P (modify f)
  unfolding modify
  Keeps-modify f k = record { at = λ s h. record { seen = k s.db h.seen; saved = h.saved } }

  pub Keeps-wait : (f : Db → Db) → ((db : Db) → P db → P (f db)) → Keeps P (wait f)
  unfolding wait
  Keeps-wait f k = record {
    at = λ s h. record { seen = k s.db h.seen; saved = k s.committed h.saved };
  }

  pub Keeps-send : (ms : List Message) → Keeps P (send ms)
  unfolding send
  Keeps-send ms = record { at = λ s h. record { seen = h.seen; saved = h.saved } }

  pub Keeps-commit : Keeps P commit
  unfolding commit
  Keeps-commit = record {
    at = λ s h. elim (Bool-cases (meets_constraints s.db)) [
      | inl met ↦ rw met (record { seen = h.seen; saved = h.seen })
      | inr broken ↦ rw broken h
    ];
  }

-- Checks, then one write that needs what the checks have found.
module _ {A B : Type 0} {P : Db → Type 0} where
  pub check_write-Holds :
      (checks : Db → Result A) (writes : A → Db → Db) (rest : A → Action B) (s : Session)
      → ((a : A) → Keeps P (rest a))
      → ((a : A) → checks s.db ≡ ok a → P (writes a s.db))
      → Holds P s
      → Holds P ((do a ← check checks; modify (writes a); rest a) s).1
  unfolding ◌>>=◌
  check_write-Holds checks writes rest s of_rest written h = go (checks s.db) refl
    where
      go :
          (r : Result A)
          → checks s.db ≡ r
          → Holds P ((do a ← check checks; modify (writes a); rest a) s).1
      go (err e) p = rw p h
      go (ok a) p = rw p (
          (of_rest a).at (record s { db = writes a s.db })
            (record { seen = written a p; saved = h.saved }))

pub ruleset keeps_rules = (
  Keeps-pure, Keeps-raise, Keeps-check, Keeps-if, Keeps-try_except, Keeps-catch, Keeps-translate,
  Keeps-bind, Keeps-modify, Keeps-wait, Keeps-send, Keeps-commit,
)
