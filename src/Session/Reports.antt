-- ===== src/Session/Reports.antt =====
-- Actions that report what they have done: an action either returns, and has then sent its entry of
-- the audit log first of all messages, or raises, and has then sent and committed nothing.
use online_banking_system.Prelude.{◌≡◌, refl, ◌⊎◌, inl, inr, List, [], ◌∷◌, Bool-cases}
use online_banking_system.Db.{Error, is_domain_error, Db}
use online_banking_system.Db.Constraints.{meets_constraints}
use online_banking_system.Session.Check.{Result, ok, err}
use online_banking_system.Session.Messages.{Message}
use online_banking_system.Session.Actions.{
  Session, Action, pure, raise, check, modify, commit, send, wait, continue, ◌>>=◌, ◌>>◌, handled,
  try_except, translate_integrity_error,
}

-- The committed rows are `db`, or what others have made of it.
pub data ByOthers (others : Db → Db) (db : Db) : Db → Type 0 where
  as_before : ByOthers others db db
  changed : {d : Db} → ByOthers others db d → ByOthers others db (others d)

module _ {A : Type 0} (others : Db → Db) (db : Db) (entry : Message) where
  abbrev pub IsReported : Result A × Session → Type 0
  IsReported out =
      ((a : A) × (rest : List Message) × (out.0 ≡ ok a) × (out.1.sent ≡ entry ∷ rest))
      ⊎ ((e : Error) × (out.0 ≡ err e) × (out.1.sent ≡ []) × ByOthers others db out.1.committed)

  pub record Reports (m : Action A) : Type 0 where
    pub at : (s : Session) → s.sent ≡ [] → ByOthers others db s.committed → IsReported (m s)

module _ {A B : Type 0} {others : Db → Db} {db : Db} {entry : Message} where
  Reports-continue :
      (r : Result A) (next : A → Action B) (s : Session)
      → ((a : A) → Reports others db entry (next a))
      → s.sent ≡ []
      → ByOthers others db s.committed
      → IsReported others db entry (continue r next s)
  Reports-continue (ok a) next s k empty saved = (k a).at s empty saved
  Reports-continue (err e) next s k empty saved = inr (e, refl, empty, saved)

  pub Reports-check :
      (f : Db → Result A) (next : A → Action B)
      → ((a : A) → Reports others db entry (next a))
      → Reports others db entry (check f >>= next)
  unfolding ◌>>=◌
  Reports-check f next k = record { at = λ s. Reports-continue (f s.db) next s k }

  pub Reports-then :
      (m : Action A) (value : A → B)
      → Reports others db entry m
      → Reports others db entry (m >>= (λ a. pure (value a)))
  unfolding ◌>>=◌
  Reports-then m value k = record {
    at = λ s empty saved. elim (k.at s empty saved) [
      | inl (a, rest, p, q) ↦ inl (value a, rest, rw p refl, rw p q)
      | inr (e, p, q, w) ↦ inr (e, rw p refl, rw p q, rw p w)
    ];
  }

module _ {A : Type 0} {others : Db → Db} {db : Db} {entry : Message} where
  pub Reports-modify :
      (f : Db → Db) (m : Action A)
      → Reports others db entry m
      → Reports others db entry (modify f >> m)
  unfolding ◌>>=◌
  Reports-modify f m k = record { at = λ s. k.at (record s { db = f s.db }) }

  pub Reports-wait :
      (m : Action A) → Reports others db entry m → Reports others db entry (wait others >> m)
  unfolding ◌>>=◌
  Reports-wait m k = record {
    at = λ s empty saved.
        k.at (record s { db = others s.db; committed = others s.committed }) empty (changed saved);
  }

  -- The commit, and the messages after it.
  pub Reports-commit :
      (rest : List Message) (value : A)
      → Reports others db entry (do commit; send (entry ∷ rest); pure value)
  unfolding ◌>>=◌
  Reports-commit rest value = record {
    at = λ s empty saved. elim (Bool-cases (meets_constraints s.db)) [
      | inl met ↦ rw met (inl (value, rest, refl, rw empty refl))
      | inr broken ↦ rw broken (inr (_, refl, empty, saved))
    ];
  }

module _ {A : Type 0} {others : Db → Db} {db : Db} {entry : Message} where
  Reports-handled :
      (out : Result A × Session)
      → IsReported others db entry out
      → IsReported others db entry (handled raise out.0 out.1)
  unfolding raise
  Reports-handled (ok a, s) k = k
  Reports-handled (err e, s) k = elim (Bool-cases (is_domain_error e)) [
    | inl domain ↦ rw domain k
    | inr other ↦ rw other k
  ]

  pub Reports-try :
      (m : Action A) → Reports others db entry m → Reports others db entry (try_except m raise)
  unfolding try_except
  Reports-try m k = record { at = λ s empty saved. Reports-handled (m s) (k.at s empty saved) }

pub Reports-done :
    {others : Db → Db} {db : Db} {entry : Message} (rest : List Message)
    → Reports others db entry (do commit; send (entry ∷ rest))
unfolding ◌>>=◌
Reports-done rest = record {
  at = λ s empty saved. elim (Bool-cases (meets_constraints s.db)) [
    | inl met ↦ rw met (inl (tt, rest, refl, rw empty refl))
    | inr broken ↦ rw broken (inr (_, refl, empty, saved))
  ];
}

module _ {A : Type 0} {others : Db → Db} {db : Db} {entry : Message} where
  -- Two writes whose UNIQUE constraint a race can break.
  pub Reports-translate :
      (f g : Db → Db) (e : Error) (rest : List Message) (value : A)
      → Reports others db entry (do
        translate_integrity_error (do modify f; modify g; commit) e
        send (entry ∷ rest)
        pure value)
  unfolding ◌>>=◌ translate_integrity_error
  Reports-translate f g e rest value = record {
    at = λ s empty saved. elim (Bool-cases (meets_constraints (g (f s.db)))) [
      | inl met ↦ rw met (inl (value, rest, refl, rw empty refl))
      | inr broken ↦ rw broken (inr (e, refl, empty, saved))
    ];
  }

pub ruleset report_rules = (
  Reports-check, Reports-then, Reports-modify, Reports-wait, Reports-commit, Reports-try,
  Reports-done, Reports-translate,
)
