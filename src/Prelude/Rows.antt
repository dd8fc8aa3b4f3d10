-- ===== src/Prelude/Rows.antt =====
-- Tables of rows: SQL's `UPDATE … WHERE`, and keys that no two rows share.
use learnvault.Prelude.Tests.{if◌then◌else◌, Bool-cases, ◌==◌, ==_iff}
use Prim.Native.Nat.{ℕ, ◌<◌}
use native.Mathlib.Omega.{arith}
use mathlib.Core.Option
use mathlib.Core.Option.{Option, none, some}
use learnvault.Prelude.Lists.{All, any, find?, find?-All, All-append, All-weaken, All-map}
use mathlib.Core.Path.{◌≡◌, refl, ap, sym, ◌∙◌, subst}
use mathlib.Core.Logic.{◌≢◌, inl, inr}
use mathlib.Core.Bool.{Bool, true, false, false≢true}
use mathlib.Core.List.{List, [], ◌∷◌, ◌++◌, map}

module _ {ℓ} {A : Type ℓ} where
  -- `UPDATE … SET f WHERE p`: the rows that pass the test are changed.
  abbrev pub change : (A → Bool) → (A → A) → A → A
  change p f r = if p r then f r else r

  abbrev pub update : (A → Bool) → (A → A) → List A → List A
  update p f rows = map (change p f) rows

  -- The other rows need a proof only where the predicate changes.
  pub All-update {κ} :
      (P Q : A → Type κ) (p : A → Bool) (f : A → A) (rows : List A)
      → ((r : A) → p r ≡ true → P r → Q (f r))
      → ((r : A) → p r ≡ false → P r → Q r)
      → All P rows
      → All Q (update p f rows)
  All-update P Q p f rows hit miss h = All-map P Q (change p f) rows step h
    where
      step : (r : A) → P r → Q (change p f r)
      step r h = elim (Bool-cases (p r)) [ inl e ↦ rw e (hit r e h) | inr e ↦ rw e (miss r e h) ]

module _ {ℓ κ} {A : Type ℓ} {K : Type κ} (key : A → K) where
  -- No two rows have the same key.
  abbrev pub DistinctBy : List A → Type κ
  DistinctBy [] = Unit
  DistinctBy (r ∷ rows) = All (λ s. key r ≢ key s) rows × DistinctBy rows

  pub DistinctBy-append :
      (rows : List A) (r : A)
      → DistinctBy rows
      → All (λ s. key s ≢ key r) rows
      → DistinctBy (rows ++ r ∷ [])
  DistinctBy-append [] r d h = (tt, tt)
  DistinctBy-append (s ∷ rows) r d h = (
    All-append (λ t. key s ≢ key t) rows (r ∷ []) d.0 (h.0, tt),
    DistinctBy-append rows r d.1 h.1,
  )

  pub DistinctBy-map :
      (f : A → A)
      → ((r : A) → key (f r) ≡ key r)
      → (rows : List A) → DistinctBy rows
      → DistinctBy (map f rows)
  DistinctBy-map f same [] d = tt
  DistinctBy-map f same (r ∷ rows) d = (
    All-map (λ s. key r ≢ key s) (λ s. key (f r) ≢ key s) f rows (λ s ne. rw (same r, same s) ne)
        d.0,
    DistinctBy-map f same rows d.1,
  )

-- Rows found by a numeric id.
module _ {ℓ} {A : Type ℓ} (key : A → ℕ) (k : ℕ) where
  pub not_found : (rows : List A) → All (λ r. key r < k) rows → find? (λ r. key r == k) rows ≡ none
  not_found [] h = refl
  not_found (r ∷ rows) h = ground (arith, not_found rows h.1, h.0)

  no_other :
      (rows : List A) (b : A)
      → key b ≡ k
      → All (λ s. key b ≢ key s) rows
      → All (λ r. (key r == k) ≡ true → r ≡ b) rows
  no_other [] b e h = tt
  no_other (r ∷ rows) b e h =
      (λ same. absurd (h.0 (e ∙ sym ((==_iff (key r) k).0 same))), no_other rows b e h.1)

  -- With distinct keys, the row that is found is the only one with its key.
  pub found_only :
      (rows : List A) (b : A)
      → DistinctBy key rows
      → find? (λ r. key r == k) rows ≡ some b
      → All (λ r. (key r == k) ≡ true → r ≡ b) rows
  found_only [] b d e = tt
  found_only (r ∷ rows) b d e = elim (Bool-cases (key r == k)) [
    | inl here ↦
        let same : r ≡ b = ground arith in
        (
          λ _. same,
          no_other rows b ((==_iff (key b) k).0 (subst (λ x. (key x == k) ≡ true) same here))
              (subst (λ x. All (λ s. key x ≢ key s) rows) same d.0),
        )
    | inr later ↦ (λ h. absurd (false≢true (sym later ∙ h)), found_only rows b d.1 (ground arith))
  ]

  -- A lookup by key commutes with a change that keeps keys.
  pub found_map :
      (f : A → A)
      → ((r : A) → key (f r) ≡ key r)
      → (rows : List A)
      → find? (λ r. key r == k) (map f rows) ≡ Option.map f (find? (λ r. key r == k) rows)
  found_map f same [] = refl
  found_map f same (r ∷ rows) = ground (arith, same r, found_map f same rows)

  pub found_append :
      (rows more : List A) (b : A)
      → find? (λ r. key r == k) rows ≡ some b
      → find? (λ r. key r == k) (rows ++ more) ≡ some b
  found_append [] more b e = absurd (cc)
  found_append (r ∷ rows) more b e = ground (arith, found_append rows more b)

-- `rows.find(p)` followed by assignments to the object found.
module _ {ℓ} {A : Type ℓ} where
  abbrev pub update_first : (A → Bool) → (A → A) → List A → List A
  update_first p f [] = []
  update_first p f (r ∷ rows) = if p r then f r ∷ rows else r ∷ update_first p f rows

  update_first-none :
      (p : A → Bool) (f : A → A) (rows : List A)
      → find? p rows ≡ none
      → update_first p f rows ≡ rows
  update_first-none p f [] e = refl
  update_first-none p f (r ∷ rows) e = ground (arith, update_first-none p f rows)

  pub All-update_first {κ} :
      (P : A → Type κ) (p : A → Bool) (f : A → A) (rows : List A)
      → ((r : A) → p r ≡ true → P r → P (f r))
      → All P rows
      → All P (update_first p f rows)
  All-update_first P p f [] hit h = tt
  All-update_first P p f (r ∷ rows) hit h = elim (Bool-cases (p r)) [
    | inl e ↦ rw e (hit r e h.0, h.1)
    | inr e ↦ rw e (h.0, All-update_first P p f rows hit h.1)
  ]

  pub DistinctBy-update_first {κ} :
      {K : Type κ} (key : A → K) (p : A → Bool) (f : A → A)
      → ((r : A) → key (f r) ≡ key r)
      → (rows : List A) → DistinctBy key rows
      → DistinctBy key (update_first p f rows)
  DistinctBy-update_first key p f same [] d = tt
  DistinctBy-update_first key p f same (r ∷ rows) d = elim (Bool-cases (p r)) [
    | inl e ↦ rw e (
      All-weaken (λ s. key r ≢ key s) (λ s. key (f r) ≢ key s) rows (λ s ne. rw (same r) ne) d.0,
      d.1,
    )
    | inr e ↦ rw e (
      All-update_first (λ s. key r ≢ key s) p f rows (λ s _ ne. rw (same s) ne) d.0,
      DistinctBy-update_first key p f same rows d.1,
    )
  ]

module _ {ℓ} {A : Type ℓ} (key : A → ℕ) (f : A → A) where
  update_no_other :
      (rows : List A) (k : ℕ) → All (λ s. k ≢ key s) rows → update (λ r. key r == k) f rows ≡ rows
  update_no_other [] k h = refl
  update_no_other (r ∷ rows) k h = ground (arith, update_no_other rows k h.1, h.0)

  -- With distinct keys, the assignment to the object found is an UPDATE by its key.
  pub update_first-eq-update :
      (p : A → Bool) (rows : List A) (b : A)
      → DistinctBy key rows
      → find? p rows ≡ some b
      → update_first p f rows ≡ update (λ r. key r == key b) f rows
  update_first-eq-update p [] b d e = absurd (cc)
  update_first-eq-update p (r ∷ rows) b d e = elim (Bool-cases (p r)) [
    | inl here ↦
        let same : r ≡ b = ground arith in
        let rest : update (λ s. key s == key b) f rows ≡ rows =
          update_no_other rows (key b) (subst (λ x. All (λ s. key x ≢ key s) rows) same d.0) in
        ground arith
    | inr later ↦
        let found : find? p rows ≡ some b = ground arith in
        let other : key r ≢ key b = find?-All (λ s. key r ≢ key s) p rows b d.0 found in
        let rest = update_first-eq-update p rows b d.1 found in ground arith
  ]

  pub found_by_key :
      (p : A → Bool) (rows : List A) (b : A)
      → DistinctBy key rows
      → find? p rows ≡ some b
      → find? (λ r. key r == key b) rows ≡ some b
  found_by_key p [] b d e = absurd (cc)
  found_by_key p (r ∷ rows) b d e = elim (Bool-cases (p r)) [
    | inl here ↦ let same : r ≡ b = ground arith in rw same (ground arith)
    | inr later ↦
        let found : find? p rows ≡ some b = ground arith in
        let other : key r ≢ key b = find?-All (λ s. key r ≢ key s) p rows b d.0 found in
        let rest = found_by_key p rows b d.1 found in ground arith
  ]

-- Tests that agree on every row select the same rows.
module _ {ℓ} {A : Type ℓ} (p q : A → Bool) where
  pub find?_congr : (rows : List A) → All (λ r. p r ≡ q r) rows → find? p rows ≡ find? q rows
  find?_congr [] h = refl
  find?_congr (r ∷ rows) h = rw (h.0, find?_congr rows h.1)

  pub update_congr :
      (f : A → A) (rows : List A) → All (λ r. p r ≡ q r) rows → update p f rows ≡ update q f rows
  update_congr f [] h = refl
  update_congr f (r ∷ rows) h = rw (h.0, update_congr f rows h.1)

module _ {ℓ} {A : Type ℓ} where
  pub find?-false : (rows : List A) → find? (λ _. false) rows ≡ none
  find?-false [] = refl
  find?-false (r ∷ rows) = find?-false rows

  pub update-false : (f : A → A) (rows : List A) → update (λ _. false) f rows ≡ rows
  update-false f [] = refl
  update-false f (r ∷ rows) = ap (λ rs. r ∷ rs) (update-false f rows)

-- An UPDATE that selects no row; one whose rows have a key, with the row that RETURNING gives.
module _ {ℓ} {A : Type ℓ} (p : A → Bool) (f : A → A) where
  pub update-any : (rows : List A) → any p rows ≡ false → update p f rows ≡ rows
  update-any [] h = refl
  update-any (r ∷ rows) h = ground (arith, update-any rows)

module _ {ℓ} {A : Type ℓ} (key : A → ℕ) (k : ℕ) (p : A → Bool) (f : A → A) where
  found_any :
      (rows : List A)
      → ((r : A) → p r ≡ true → (key r == k) ≡ true)
      → any p rows ≡ true
      → find? (λ r. key r == k) rows ≢ none
  found_any [] keyed h e = absurd (cc)
  found_any (r ∷ rows) keyed h e = elim (Bool-cases (p r)) [
    | inl hit ↦ ground (arith, keyed r hit)
    | inr miss ↦ found_any rows keyed (ground arith) (ground arith)
  ]

  not_mapped : (o : Option A) → Option.map (change p f) o ≡ none → o ≡ none
  not_mapped none h = refl
  not_mapped (some a) h = absurd (cc)

  pub returning-none :
      (rows : List A)
      → ((r : A) → p r ≡ true → (key r == k) ≡ true)
      → ((r : A) → key (f r) ≡ key r)
      → (if any p rows then find? (λ r. key r == k) (update p f rows) else none) ≡ none
      → update p f rows ≡ rows
  returning-none rows keyed same h = elim (Bool-cases (any p rows)) [
    | inr none_hit ↦ update-any p f rows none_hit
    | inl hit ↦
        let stored = found_map key k (change p f) (λ r. ground (arith, same r)) rows in
        absurd (
          found_any rows keyed hit
            (not_mapped (find? (λ r. key r == k) rows) (sym stored ∙ (rw hit at h))))
  ]
