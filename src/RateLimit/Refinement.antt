-- ===== src/RateLimit/Refinement.antt =====
-- The deques of InMemoryRateLimiter against the full history of admitted hits.
use online_banking_system.Prelude.{
  ℕ, ◌+◌, ◌-◌, ◌≡◌, ◌≤◌, refl, Bool, true, false, ◌&&◌, List, [], ◌∷◌, ltb, leb, arith, ◌∙◌, sym,
  if◌then◌else◌, length, Bool-cases, inl, inr,
}
use online_banking_system.RateLimit.{
  Text, same_text, same_text_refl, same_text_sound, hits_of, prune, record_hit, is_allowed, Limit,
  Request, answers,
}
use online_banking_system.RateLimit.History.{recent, recent_of, admits, spec_answers, in_order}
use online_banking_system.RateLimit.Windows.{
  ordered, ordered-higher, ordered-append, recent-append, prune-ordered, prune-recent, prune-length,
}

module _ (window now : ℕ) where
  -- A deque and a count agree from now on.
  record Counts (ts : List ℕ) (count : ℕ → ℕ) : Type 0 where
    agree : (later : ℕ) → now ≤ later → recent later window ts ≡ count later
    sorted : ordered 0 now ts ≡ true

-- One request of a key against the deque of the key.
record_hit-Counts :
    (window before now limit : ℕ) (ts : List ℕ) (count : ℕ → ℕ)
    → before ≤ now
    → Counts window before ts count
    → let out = record_hit now limit (prune now window ts) in
      (out.0 ≡ ltb (count now) limit)
      × Counts window now out.1
          (λ later. (if out.0 && leb (later - now) window then 1 else 0) + count later)
unfolding record_hit
record_hit-Counts window before now limit ts count le c =
    let kept = prune now window ts in
    let lengths = prune-length now window 0 before ts c.sorted ∙ c.agree now le in
    let sorted = prune-ordered now window 0 before ts c.sorted in
    elim (Bool-cases (leb limit (length kept))) [
      | inl full ↦ rw full (
        ground (arith, full, lengths),
        record {
          agree = λ later far. ground (
            arith,
            prune-recent now window later ts far,
            c.agree later (ground (arith, far, le)),
          );
          sorted = ordered-higher 0 before now kept le sorted;
        },
      )
      | inr room ↦ rw room (
        ground (arith, room, lengths),
        record {
          agree = λ later far.
              recent-append later window now kept
              ∙ ground (
                arith,
                prune-recent now window later ts far,
                c.agree later (ground (arith, far, le)),
              );
          sorted = ordered-append 0 before now kept sorted le;
        },
      )
    ]

-- The history after a request.
abbrev remembered : Bool → List Request → Request → List Request
remembered answer history r = if answer then r ∷ history else history

module _ (policy : Text → Limit) where
  -- The deques and the history agree on every key.
  record Tracks (now : ℕ) (hits : List (Text × List ℕ)) (history : List Request) : Type 0 where
    keys :
        (k : Text)
        → let window = (policy k).window_seconds in
          Counts window now (hits_of k hits) (λ later. recent_of k later window history)

  remembered-key :
      (answer : Bool) (r : Request) (history : List Request) (later window : ℕ)
      → recent_of r.key later window (remembered answer history r)
        ≡ (if answer && leb (later - r.now) window then 1 else 0)
          + recent_of r.key later window history
  unfolding recent_of
  remembered-key true r history later window = rw (same_text_refl r.key) refl
  remembered-key false r history later window = ground arith

  remembered-other :
      (answer : Bool) (r : Request) (history : List Request) (k : Text) (later window : ℕ)
      → same_text r.key k ≡ false
      → recent_of k later window (remembered answer history r) ≡ recent_of k later window history
  unfolding recent_of
  remembered-other true r history k later window other = rw other (ground arith)
  remembered-other false r history k later window other = refl

  is_allowed-Tracks :
      (before : ℕ) (hits : List (Text × List ℕ)) (history : List Request) (r : Request)
      → before ≤ r.now
      → Tracks before hits history
      → let p = policy r.key in
        let out = is_allowed r.now r.key p.limit p.window_seconds hits in
        (out.0 ≡ admits policy history r) × Tracks r.now out.1 (remembered out.0 history r)
  unfolding is_allowed admits hits_of
  is_allowed-Tracks before hits history r le tracks =
      let p = policy r.key in
      let w = p.window_seconds in
      let out = record_hit r.now p.limit (prune r.now w (hits_of r.key hits)) in
      let (answer, counts) =
        record_hit-Counts w before r.now p.limit (hits_of r.key hits)
          (λ later. recent_of r.key later w history) le (tracks.keys r.key) in
      let at_key : Counts w r.now out.1
          (λ later. recent_of r.key later w (remembered out.0 history r)) =
        record {
          agree =
              λ later far. counts.agree later far ∙ sym (remembered-key out.0 r history later w);
          sorted = counts.sorted;
        } in
      (
        answer,
        record {
          keys = λ k. elim (Bool-cases (same_text r.key k)) [
            | inl same ↦ rw same (rw (sym (same_text_sound r.key k same)) at_key)
            | inr other ↦ rw other (record {
              agree = λ later far.
                  (tracks.keys k).agree later (ground (arith, far, le))
                  ∙ sym (remembered-other out.0 r history k later (policy k).window_seconds other);
              sorted = ordered-higher 0 before r.now (hits_of k hits) le (tracks.keys k).sorted;
            })
          ];
        },
      )

  answers-Tracks :
      (now : ℕ) (hits : List (Text × List ℕ)) (history rs : List Request)
      → Tracks now hits history
      → in_order now rs ≡ true
      → answers policy hits rs ≡ spec_answers policy history rs
  unfolding answers spec_answers in_order
  answers-Tracks now hits history [] tracks order = refl
  answers-Tracks now hits history (r ∷ rs) tracks order =
      let p = policy r.key in
      let out = is_allowed r.now r.key p.limit p.window_seconds hits in
      let (answer, after) = is_allowed-Tracks now hits history r (ground (arith, order)) tracks in
      let tail : in_order r.now rs ≡ true = ground (arith, order) in
      elim (Bool-cases (admits policy history r)) [
        | inl granted ↦ rw granted (
            cc (
              answer,
              granted,
              answers-Tracks r.now out.1 (r ∷ history) rs (rw (answer ∙ granted) at after) tail,
            ))
        | inr refused ↦ rw refused (
            cc (
              answer,
              refused,
              answers-Tracks r.now out.1 history rs (rw (answer ∙ refused) at after) tail,
            ))
      ]

-- InMemoryRateLimiter keeps the promise of a sliding log: with a fixed limit and window for each key,
-- and times that do not decrease, it answers every sequence of requests as a limiter that remembers
-- all admitted hits for ever and admits a request exactly when its key has fewer than `limit` admitted
-- hits that are at most a window old. Nothing that the loop pops is missed.
pub limiter_refines_history :
    (policy : Text → Limit) (start : ℕ) (rs : List Request)
    → in_order start rs ≡ true
    → answers policy [] rs ≡ spec_answers policy [] rs
unfolding in_order hits_of recent_of recent ordered
limiter_refines_history policy start rs order =
    answers-Tracks policy start [] [] rs
      (record { keys = λ k. record { agree = λ later far. refl; sorted = ground arith } }) order
