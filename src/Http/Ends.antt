-- ===== src/Http/Ends.antt =====
-- How a request ends: it fails and leaves the state as it was, or it succeeds in a state that is related
-- to the first. One rule for each way to build a chain of steps.
use learnvault.Prelude.{ℕ, String, ◌≡◌, refl, Option, none, some, Bool, true, false, if◌then◌else◌}
use learnvault.Http.{
  Reply, done, failed, Action, answer, fail, or_fail, read, call, continue, ◌>>=◌, reject_if,
  reject_for,
}

abbrev pub EndsIn : {S A : Type 0} → S → (A → S → Type 0) → Reply A → S → Type 0
EndsIn s Q (done a) s' = Q a s'
EndsIn s Q (failed status text) s' = s' ≡ s

pub record Ends {S A : Type 0} (s : S) (Q : A → S → Type 0) (m : Action S A) : Type 0 where
  pub at : EndsIn s Q (m s).0 (m s).1

module _ {S A : Type 0} (s : S) (Q : A → S → Type 0) where
  pub Ends-fail : (status : ℕ) (text : String) → Ends s Q (fail status text)
  unfolding fail
  Ends-fail status text = record { at = refl }

  pub Ends-answer : (a : A) → Q a s → Ends s Q (answer a)
  unfolding answer
  Ends-answer a h = record { at = h }

  pub Ends-or_fail :
      (o : Option A) (status : ℕ) (text : String)
      → ((a : A) → o ≡ some a → Q a s)
      → Ends s Q (or_fail o status text)
  unfolding or_fail
  Ends-or_fail none status text h = record { at = refl }
  Ends-or_fail (some a) status text h = record { at = h a refl }

  pub Ends-call : (f : S → A × S) → Q (f s).0 (f s).1 → Ends s Q (call f)
  unfolding call
  Ends-call f h = record { at = h }

  pub Ends-if :
      (b : Bool) (m k : Action S A) → Ends s Q m → Ends s Q k → Ends s Q (if b then m else k)
  Ends-if true m k h h' = h
  Ends-if false m k h h' = h'

  -- A query that changes nothing where its result is refused.
  pub Ends-call-or_fail :
      (f : S → Option A × S) (status : ℕ) (text : String)
      → ((f s).0 ≡ none → (f s).1 ≡ s)
      → ((a : A) → (f s).0 ≡ some a → Q a (f s).1)
      → Ends s Q (call f >>= λ o. or_fail o status text)
  unfolding call or_fail ◌>>=◌
  Ends-call-or_fail f status text refused kept = record { at = go (f s) refused kept }
    where
      go :
          (r : Option A × S)
          → (r.0 ≡ none → r.1 ≡ s)
          → ((a : A) → r.0 ≡ some a → Q a r.1)
          → EndsIn s Q (or_fail r.0 status text r.1).0 (or_fail r.0 status text r.1).1
      go (none, s') refused kept = refused refl
      go (some a, s') refused kept = kept a refl

module _ {S A B : Type 0} (s : S) (Q : B → S → Type 0) where
  pub Ends-read-bind :
      (f : S → A) (k : A → Action S B) → Ends s Q (k (f s)) → Ends s Q (read f >>= k)
  unfolding read ◌>>=◌
  Ends-read-bind f k h = record { at = h.at }

  pub Ends-or_fail-bind :
      (o : Option A) (status : ℕ) (text : String) (k : A → Action S B)
      → ((a : A) → o ≡ some a → Ends s Q (k a))
      → Ends s Q (or_fail o status text >>= k)
  unfolding or_fail ◌>>=◌
  Ends-or_fail-bind none status text k h = record { at = refl }
  Ends-or_fail-bind (some a) status text k h = record { at = (h a refl).at }

module _ {S B : Type 0} (s : S) (Q : B → S → Type 0) where
  pub Ends-reject_if-bind :
      (b : Bool) (status : ℕ) (text : String) (k : Unit {0} → Action S B)
      → (b ≡ false → Ends s Q (k tt))
      → Ends s Q (reject_if b status text >>= k)
  unfolding reject_if ◌>>=◌
  Ends-reject_if-bind true status text k h = record { at = refl }
  Ends-reject_if-bind false status text k h = record { at = (h refl).at }

  pub Ends-reject_for-bind :
      (reason : Option String) (status : ℕ) (k : Unit {0} → Action S B)
      → (reason ≡ none → Ends s Q (k tt))
      → Ends s Q (reject_for reason status >>= k)
  unfolding reject_for ◌>>=◌
  Ends-reject_for-bind none status k h = record { at = (h refl).at }
  Ends-reject_for-bind (some text) status k h = record { at = refl }

module _ {S A : Type 0} (s : S) (Q Q' : A → S → Type 0) (m : Action S A) where
  pub Ends-weaken : ((a : A) (s' : S) → Q a s' → Q' a s') → Ends s Q m → Ends s Q' m
  Ends-weaken k h = record { at = go (m s).0 h.at }
    where
      go : (r : Reply A) → EndsIn s Q r (m s).1 → EndsIn s Q' r (m s).1
      go (done a) h = k a (m s).1 h
      go (failed status text) h = h

-- What follows a whole request, where its state is all that counts.
module _ {S A B : Type 0} (s : S) (R : S → Type 0) where
  pub Ends-bind-answer :
      (m : Action S A) (b : B)
      → Ends s (λ a s'. R s') m
      → Ends s (λ b s'. R s') (m >>= λ a. answer b)
  unfolding answer ◌>>=◌
  Ends-bind-answer m b h = record { at = go (m s).0 h.at }
    where
      go :
          (r : Reply A)
          → EndsIn s (λ a s'. R s') r (m s).1
          → EndsIn s
              (λ b s'. R s')
              (continue r (λ a. answer b) (m s).1).0
              (continue r (λ a. answer b) (m s).1).1
      go (done a) h = h
      go (failed status text) h = h

-- Guards that change nothing, before the rest.
module _ {S A B : Type 0} (s : S) (R : B → S → Type 0) where
  pub Ends-guards-bind :
      (Q : A → Type 0) (m : Action S A) (k : A → Action S B)
      → Ends s (λ a s'. (s' ≡ s) × Q a) m
      → ((a : A) → Q a → Ends s R (k a))
      → Ends s R (m >>= k)
  unfolding ◌>>=◌
  Ends-guards-bind Q m k h next = record { at = go (m s).0 (m s).1 h.at }
    where
      go :
          (a : Reply A) (s' : S)
          → EndsIn s (λ a s'. (s' ≡ s) × Q a) a s'
          → EndsIn s R (continue a k s').0 (continue a k s').1
      go (done a) s' e = rw e.0 (next a e.1).at
      go (failed status text) s' e = e

-- A request that succeeds: what is known of its end, and of the first part of a chain.
module _ {S A : Type 0} (s : S) (Q : A → S → Type 0) (m : Action S A) where
  pub Ends-done : Ends s Q m → (a : A) → (m s).0 ≡ done a → Q a (m s).1
  Ends-done h a e = rw e at h.at

pub record Passed {S A B : Type 0} (s : S) (m : Action S A) (k : A → Action S B) (b : B)
    : Type 0 where
  pub value : A
  pub first : (m s).0 ≡ done value
  pub rest : (k value (m s).1).0 ≡ done b

module _ {S A B : Type 0} (s : S) (m : Action S A) (k : A → Action S B) (b : B) where
  pub done-Passed : ((m >>= k) s).0 ≡ done b → Passed s m k b
  unfolding ◌>>=◌
  done-Passed = go (m s).0 refl
    where
      go : (r : Reply A) → (m s).0 ≡ r → (continue r k (m s).1).0 ≡ done b → Passed s m k b
      go (done a) e h = record { value = a; first = e; rest = h }
      go (failed status text) e h = absurd (cc)

pub ruleset ends_rules = (
  Ends-reject_for-bind, Ends-fail, Ends-answer, Ends-read-bind, Ends-or_fail-bind,
  Ends-reject_if-bind, Ends-or_fail,
)
