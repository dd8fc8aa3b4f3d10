-- ===== src/Http/Keeps.antt =====
-- A request that keeps a predicate of the state, however it ends: one rule for each way to build a
-- chain of steps.
use learnvault.Prelude.{
  ℕ, ◌≡◌, ◌≢◌, refl, String, Option, none, some, Bool, true, false, if◌then◌else◌,
}
use learnvault.Http.Ends.{Ends, EndsIn}
use learnvault.Http.{
  Reply, done, failed, Action, answer, fail, or_fail, read, call, continue, ◌>>=◌, reject_if,
  reject_for,
}

pub record Keeps {S A : Type 0} (R : S → Type 0) (m : Action S A) : Type 0 where
  pub after : (s : S) → R s → R (m s).1

module _ {S A : Type 0} (R : S → Type 0) where
  pub Keeps-answer : (a : A) → Keeps R (answer a)
  unfolding answer
  Keeps-answer a = record { after = λ s h. h }

  pub Keeps-fail : (status : ℕ) (text : String) → Keeps {S = S} {A = A} R (fail status text)
  unfolding fail
  Keeps-fail status text = record { after = λ s h. h }

  pub Keeps-or_fail : (o : Option A) (status : ℕ) (text : String) → Keeps R (or_fail o status text)
  unfolding or_fail
  Keeps-or_fail none status text = record { after = λ s h. h }
  Keeps-or_fail (some a) status text = record { after = λ s h. h }

  pub Keeps-if :
      (b : Bool) (m k : Action S A) → Keeps R m → Keeps R k → Keeps R (if b then m else k)
  Keeps-if true m k h h' = h
  Keeps-if false m k h h' = h'

  pub Keeps-read : (f : S → A) → Keeps R (read f)
  unfolding read
  Keeps-read f = record { after = λ s h. h }

  pub Keeps-call : (f : S → A × S) → ((s : S) → R s → R (f s).1) → Keeps R (call f)
  unfolding call
  Keeps-call f kept = record { after = kept }

module _ {S : Type 0} (R : S → Type 0) where
  pub Keeps-reject_if : (b : Bool) (status : ℕ) (text : String) → Keeps R (reject_if b status text)
  unfolding reject_if
  Keeps-reject_if b status text = record { after = λ s h. h }

  pub Keeps-reject_for : (o : Option String) (status : ℕ) → Keeps R (reject_for o status)
  unfolding reject_for
  Keeps-reject_for none status = record { after = λ s h. h }
  Keeps-reject_for (some text) status = record { after = λ s h. h }

module _ {S A B : Type 0} (R : S → Type 0) where
  pub Keeps-bind :
      (m : Action S A) (k : A → Action S B)
      → Keeps R m
      → ((a : A) → Keeps R (k a))
      → Keeps R (m >>= k)
  unfolding ◌>>=◌
  Keeps-bind m k h next = record { after = λ s r. go (m s).0 (m s).1 (h.after s r) }
    where
      go : (a : Reply A) (s : S) → R s → R (continue a k s).1
      go (done a) s r = (next a).after s r
      go (failed status text) s r = r

pub ruleset keeps_rules = (
  Keeps-answer, Keeps-fail, Keeps-or_fail, Keeps-read, Keeps-reject_if, Keeps-reject_for,
  Keeps-bind,
)

-- A request that never succeeds in a state with the predicate, and keeps it.
pub record Refuses {S A : Type 0} (R : S → Type 0) (m : Action S A) : Type 0 where
  pub refused : (s : S) → R s → ((a : A) → (m s).0 ≢ done a) × R (m s).1

module _ {S A B : Type 0} (R : S → Type 0) where
  pub Refuses-bind :
      (m : Action S A) (k : A → Action S B)
      → Keeps R m
      → ((a : A) → Refuses R (k a))
      → Refuses R (m >>= k)
  unfolding ◌>>=◌
  Refuses-bind m k h next = record { refused = λ s r. go (m s).0 (m s).1 (h.after s r) }
    where
      go :
          (a : Reply A) (s : S)
          → R s
          → ((b : B) → (continue a k s).0 ≢ done b) × R (continue a k s).1
      go (done a) s r = (next a).refused s r
      go (failed status text) s r = (λ b e. cc, r)

  pub Refuses-or_fail-bind :
      (o : Option A) (status : ℕ) (text : String) (k : A → Action S B)
      → ((a : A) → o ≡ some a → Refuses R (k a))
      → Refuses R (or_fail o status text >>= k)
  unfolding or_fail ◌>>=◌
  Refuses-or_fail-bind none status text k h = record { refused = λ s r. (λ b e. cc, r) }
  Refuses-or_fail-bind (some a) status text k h = record { refused = λ s r. (h a refl).refused s r }

-- A request that from the one predicate of the state leads to the other, however it ends.
pub record Leads {S A : Type 0} (P R : S → Type 0) (m : Action S A) : Type 0 where
  pub to : (s : S) → P s → R (m s).1

module _ {S A : Type 0} (P R : S → Type 0) where
  pub Leads-call : (f : S → A × S) → ((s : S) → P s → R (f s).1) → Leads P R (call f)
  unfolding call
  Leads-call f step = record { to = step }

  pub Leads-Keeps : (m : Action S A) → ((s : S) → P s → R s) → Keeps R m → Leads P R m
  Leads-Keeps m weak kept = record { to = λ s p. kept.after s (weak s p) }

module _ {S A B : Type 0} (P R : S → Type 0) (m : Action S A) (k : A → Action S B) where
  -- Steps before the change, and steps after it.
  pub Leads-before :
      ((s : S) → P s → R s) → Keeps P m → ((a : A) → Leads P R (k a)) → Leads P R (m >>= k)
  unfolding ◌>>=◌
  Leads-before weak kept next = record { to = λ s p. go (m s).0 (m s).1 (kept.after s p) }
    where
      go : (a : Reply A) (s : S) → P s → R (continue a k s).1
      go (done a) s p = (next a).to s p
      go (failed status text) s p = weak s p

  pub Leads-after : Leads P R m → ((a : A) → Keeps R (k a)) → Leads P R (m >>= k)
  unfolding ◌>>=◌
  Leads-after first next = record { to = λ s p. go (m s).0 (m s).1 (first.to s p) }
    where
      go : (a : Reply A) (s : S) → R s → R (continue a k s).1
      go (done a) s r = (next a).after s r
      go (failed status text) s r = r

  -- Guards that change nothing, and what they have established.
  pub Leads-guards :
      (Q : A → S → Type 0)
      → ((s : S) → P s → R s)
      → ((s : S) → Ends s (λ a s'. (s' ≡ s) × Q a s) m)
      → ((a : A) → Leads (λ s. P s × Q a s) R (k a))
      → Leads P R (m >>= k)
  unfolding ◌>>=◌
  Leads-guards Q weak guards next = record { to = λ s p. go s (m s).0 (m s).1 p (guards s).at }
    where
      go :
          (s : S) (a : Reply A) (s' : S)
          → P s
          → EndsIn s (λ a s'. (s' ≡ s) × Q a s) a s'
          → R (continue a k s').1
      go s (done a) s' p e = rw e.0 ((next a).to s (p, e.1))
      go s (failed status text) s' p e = rw e (weak s p)

module _ {S A : Type 0} (R : S → Type 0) (m : Action S A) where
  pub Keeps-Ends : ((s : S) → Ends s (λ a s'. R s → R s') m) → Keeps R m
  Keeps-Ends ends = record { after = λ s r. go s r (m s).0 (m s).1 (ends s).at }
    where
      go : (s : S) → R s → (a : Reply A) (s' : S) → EndsIn s (λ a s'. R s → R s') a s' → R s'
      go s r (done a) s' h = h r
      go s r (failed status text) s' h = rw h r

  pub Keeps-Leads : Leads R R m → Keeps R m
  Keeps-Leads h = record { after = h.to }
