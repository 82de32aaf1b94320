-- ===== src/Session/Actions.antt =====
-- Actions of a request on its session, and the handler `except DomainError`.
use online_banking_system.Prelude.{Bool, true, false, List, [], ◌++◌, if◌then◌else◌}
use online_banking_system.Db.{Error, integrity_error, is_domain_error, Db}
use online_banking_system.Db.Constraints.{meets_constraints}
use online_banking_system.Session.Check.{Result, ok, err}
use online_banking_system.Session.Messages.{Message}

-- `db` is what the session reads: the committed rows with its own flushed changes.
pub record Session : Type 0 where
  pub db : Db
  pub committed : Db
  pub sent : List Message

abbrev pub Action : Type 0 → Type 0
Action A = Session → Result A × Session

module _ {A : Type 0} where
  unfoldable pub pure : A → Action A
  pure a s = (ok a, s)

  unfoldable pub raise : Error → Action A
  raise e s = (err e, s)

  -- Checks on the rows that the session sees.
  unfoldable pub check : (Db → Result A) → Action A
  check f s = (f s.db, s)

-- Attribute writes and `session.add`; a flush sends them without committing.
unfoldable pub modify : (Db → Db) → Action (Unit {0})
modify f s = (ok tt, record s { db = f s.db })

-- `session.commit()`: the constraints are checked at the flush that precedes it.
unfoldable pub commit : Action (Unit {0})
commit s =
    if meets_constraints s.db
    then (ok tt, record s { committed = s.db })
    else (err integrity_error, s)

-- `session.rollback()`
abbrev pub rollback : Session → Session
rollback s = record s { db = s.committed }

unfoldable pub send : List Message → Action (Unit {0})
send ms s = (ok tt, record s { sent = s.sent ++ ms })

-- What other requests commit while this one waits (for a lock, or between two statements). Their
-- commits reach both views; under READ COMMITTED the next read sees them.
unfoldable pub wait : (Db → Db) → Action (Unit {0})
wait others s = (ok tt, record s { db = others s.db; committed = others s.committed })

abbrev pub continue : {A B : Type 0} → Result A → (A → Action B) → Action B
continue (ok a) f s = f a s
continue (err e) f s = (err e, s)

module _ {A B : Type 0} where
  infixl 5 ◌>>◌ ◌>>=◌
  -- Opening this opens the simple actions too.
  unfoldable pub ◌>>=◌ : Action A → (A → Action B) → Action B
  unfolding pure raise check modify commit send wait
  ◌>>=◌ first next s = continue (first s).0 next (first s).1

  abbrev pub ◌>>◌ : Action A → Action B → Action B
  ◌>>◌ first second = first >>= (λ _. second)

module _ {A : Type 0} where
  abbrev pub handled : (Error → Action A) → Result A → Action A
  handled h (ok a) s = (ok a, s)
  handled h (err e) s = if is_domain_error e then h e (rollback s) else (err e, s)

  -- `try: m  except DomainError as exc: await session.rollback(); h(exc)`
  unfoldable pub try_except : Action A → (Error → Action A) → Action A
  try_except m h s = handled h (m s).0 (m s).1

  abbrev pub caught : (Error → Action A) → Result A → Action A
  caught h (ok a) s = (ok a, s)
  caught h (err e) s = if is_domain_error e then h e s else (err e, s)

  -- `try: m  except DomainError as exc: h(exc)`, without a rollback
  unfoldable pub catch_domain_error : Action A → (Error → Action A) → Action A
  catch_domain_error m h s = caught h (m s).0 (m s).1

-- `isinstance(exc, IntegrityError)`
abbrev pub is_integrity_error : Error → Bool
is_integrity_error integrity_error = true
is_integrity_error _ = false

module _ {A : Type 0} where
  abbrev pub translated : Error → Result A → Action A
  translated e (ok a) s = (ok a, s)
  translated e (err x) s = if is_integrity_error x then (err e, rollback s) else (err x, s)

  -- `try: m  except IntegrityError: await session.rollback(); raise e`
  unfoldable pub translate_integrity_error : Action A → Error → Action A
  translate_integrity_error m e s = translated e (m s).0 (m s).1

-- The dependency `get_db`: a session on the committed rows.
abbrev pub open_session : Db → Session
open_session db = record { db = db; committed = db; sent = [] }
