-- ===== src/Http.antt =====
-- What the request handlers of server/src/controllers share: the answer, a request as a chain of steps
-- over the server's state that ends at the first failure, and the tests of its parameters.
pub mod Ends
pub mod Keeps
use learnvault.Prelude.{
  ℕ, String, Option, none, some, Bool, true, false, str_eq, if◌then◌else◌, ltb,
}

-- A status with the text of its error; `done` stands for 200 and 201.
pub data Reply (A : Type 0) : Type 0 where
  done : A → Reply A
  failed : ℕ → String → Reply A

abbrev pub Action : Type 0 → Type 0 → Type 0
Action S A = S → Reply A × S

module _ {S A : Type 0} where
  unfoldable pub answer : A → Action S A
  answer a s = (done a, s)

  unfoldable pub fail : ℕ → String → Action S A
  fail status text s = (failed status text, s)

  unfoldable pub or_fail : Option A → ℕ → String → Action S A
  or_fail none status text s = (failed status text, s)
  or_fail (some a) status text s = (done a, s)

  unfoldable pub read : (S → A) → Action S A
  read f s = (done (f s), s)

  unfoldable pub call : (S → A × S) → Action S A
  call f s = (done (f s).0, (f s).1)

-- The rest of a chain, from the answer so far.
abbrev pub continue : {S A B : Type 0} → Reply A → (A → Action S B) → Action S B
continue (done a) f s = f a s
continue (failed status text) f s = (failed status text, s)

infixl 5 ◌>>=◌ ◌>>◌
unfoldable pub ◌>>=◌ : {S A B : Type 0} → Action S A → (A → Action S B) → Action S B
◌>>=◌ m f s = continue (m s).0 f (m s).1

abbrev pub ◌>>◌ : {S A B : Type 0} → Action S A → Action S B → Action S B
m >> k = m >>= λ _. k

unfoldable pub reject_if : {S : Type 0} → Bool → ℕ → String → Action S (Unit {0})
reject_if b status text s = (if b then failed status text else done tt, s)

-- A check that gives the reason of its refusal.
unfoldable pub reject_for : {S : Type 0} → Option String → ℕ → Action S (Unit {0})
reject_for none status s = (done tt, s)
reject_for (some reason) status s = (failed status reason, s)

-- `!text`
abbrev pub is_blank : Option String → Bool
is_blank none = true
is_blank (some text) = str_eq text ""

-- `Number.parseInt` gives no number, or one that is tested; a negative one is none here.
abbrev pub positive_id : Option ℕ → Option ℕ
positive_id none = none
positive_id (some id) = if ltb 0 id then some id else none
