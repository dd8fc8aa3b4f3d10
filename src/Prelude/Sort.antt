-- ===== src/Prelude/Sort.antt =====
-- The stable sort of `Array.prototype.sort` and of ORDER BY, by a numeric key, largest first, and
-- the slice that is a page.
use learnvault.Prelude.Tests.{leb, ◌==◌, if◌then◌else◌, Bool-cases}
use learnvault.Prelude.Lists.{length, take, drop, All}
use Prim.Native.Nat.{ℕ, zero, suc, ◌+◌, ◌-◌, ◌*◌, ◌≤◌}
use native.Mathlib.Omega.{arith}
use mathlib.Core.Path.{◌≡◌, refl, ap, sym, ◌∙◌}
use mathlib.Core.Logic.{inl, inr}
use mathlib.Core.Bool.{false}
use mathlib.Core.List.{List, [], ◌∷◌, ◌++◌, Perm}
use mathlib.Core.List.Perm

module _ {ℓ} {A : Type ℓ} (key : A → ℕ) where
  abbrev pub insert_desc : A → List A → List A
  insert_desc x [] = x ∷ []
  insert_desc x (y ∷ ys) =
      let rest = insert_desc x ys in if leb (key y) (key x) then x ∷ y ∷ ys else y ∷ rest

  abbrev pub sort_desc : List A → List A
  sort_desc [] = []
  sort_desc (x ∷ xs) = insert_desc x (sort_desc xs)

  abbrev pub IsSortedDesc : List A → Type 0
  IsSortedDesc [] = Unit
  IsSortedDesc (x ∷ xs) = All (λ y. key y ≤ key x) xs × IsSortedDesc xs

  insert-All :
      (n : ℕ) (x : A) (xs : List A)
      → key x ≤ n
      → All (λ y. key y ≤ n) xs
      → All (λ y. key y ≤ n) (insert_desc x xs)
  insert-All n x [] h k = (h, tt)
  insert-All n x (y ∷ ys) h k = elim (Bool-cases (leb (key y) (key x))) [
    | inl e ↦ rw e (h, k)
    | inr e ↦ rw e (k.0, insert-All n x ys h k.1)
  ]

  All-le : (m n : ℕ) (xs : List A) → m ≤ n → All (λ y. key y ≤ m) xs → All (λ y. key y ≤ n) xs
  All-le m n [] h k = tt
  All-le m n (y ∷ ys) h k = (omega arith, All-le m n ys h k.1)

  insert-IsSortedDesc : (x : A) (xs : List A) → IsSortedDesc xs → IsSortedDesc (insert_desc x xs)
  insert-IsSortedDesc x [] h = (tt, tt)
  insert-IsSortedDesc x (y ∷ ys) h = elim (Bool-cases (leb (key y) (key x))) [
    | inl e ↦
        let below : key y ≤ key x = ground arith in
        rw e ((below, All-le (key y) (key x) ys below h.0), h)
    | inr e ↦
        let below : key x ≤ key y = ground arith in
        rw e (insert-All (key y) x ys below h.0, insert-IsSortedDesc x ys h.1)
  ]

  pub sort-IsSortedDesc : (xs : List A) → IsSortedDesc (sort_desc xs)
  sort-IsSortedDesc [] = tt
  sort-IsSortedDesc (x ∷ xs) = insert-IsSortedDesc x (sort_desc xs) (sort-IsSortedDesc xs)

  insert-perm : (x : A) (xs : List A) → Perm (insert_desc x xs) (x ∷ xs)
  insert-perm x [] = Perm.refl _
  insert-perm x (y ∷ ys) = elim (Bool-cases (leb (key y) (key x))) [
    | inl e ↦ rw e (Perm.refl _)
    | inr e ↦ rw e (Perm.trans (Perm.cons y (insert-perm x ys)) (Perm.swap x y ys))
  ]

  pub sort-perm : (xs : List A) → Perm (sort_desc xs) xs
  sort-perm [] = Perm.refl []
  sort-perm (x ∷ xs) = Perm.trans (insert-perm x (sort_desc xs)) (Perm.cons x (sort-perm xs))

  length-insert : (x : A) (xs : List A) → length (insert_desc x xs) ≡ suc (length xs)
  length-insert x [] = refl
  length-insert x (y ∷ ys) = elim (Bool-cases (leb (key y) (key x))) [
    | inl e ↦ rw e
    | inr e ↦ rw e (ap suc (length-insert x ys))
  ]

  pub length-sort : (xs : List A) → length (sort_desc xs) ≡ length xs
  length-sort [] = refl
  length-sort (x ∷ xs) = length-insert x (sort_desc xs) ∙ ap suc (length-sort xs)

module _ {ℓ} {A : Type ℓ} where
  -- `slice((page - 1) * size, (page - 1) * size + size)`; at page 0 both ends are counted from the
  -- end of the list and the slice is empty.
  abbrev pub page_of : ℕ → ℕ → List A → List A
  page_of page size xs = if page == 0 then [] else take size (drop ((page - 1) * size) xs)

  -- The pages 1 to n, one after the other.
  abbrev pub pages : ℕ → ℕ → List A → List A
  pages zero size xs = []
  pages (suc n) size xs = pages n size xs ++ page_of (suc n) size xs

  pub take-nil : (n : ℕ) → take {A = A} n [] ≡ []
  take-nil zero = refl
  take-nil (suc n) = refl

  take-add : (a b : ℕ) (xs : List A) → take (a + b) xs ≡ take a xs ++ take b (drop a xs)
  take-add zero b xs = let e : zero + b ≡ b = omega arith in rw e
  take-add (suc a) b [] = take-nil (suc a + b) ∙ sym (take-nil b)
  take-add (suc a) b (x ∷ xs) =
      let e : suc a + b ≡ suc (a + b) = omega arith in rw e (ap (λ ys. x ∷ ys) (take-add a b xs))

  take-all : (n : ℕ) (xs : List A) → length xs ≤ n → take n xs ≡ xs
  take-all zero [] h = refl
  take-all zero (x ∷ xs) h = absurd (omega arith)
  take-all (suc n) [] h = refl
  take-all (suc n) (x ∷ xs) h = ap (λ ys. x ∷ ys) (take-all n xs (omega arith))

  page-suc : (n size : ℕ) (xs : List A) → page_of (suc n) size xs ≡ take size (drop (n * size) xs)
  page-suc n size xs =
      let same : (suc n == 0) ≡ false = ground arith in
      let back : suc n - 1 ≡ n = omega arith in rw (same, back)

  pub pages-take : (n size : ℕ) (xs : List A) → pages n size xs ≡ take (n * size) xs
  pages-take zero size xs = let e : zero * size ≡ zero = omega arith in rw e
  pages-take (suc n) size xs =
      rw (pages-take n size xs, page-suc n size xs)
        (let e : suc n * size ≡ n * size + size = omega arith in
          rw e (sym (take-add (n * size) size xs)))

  -- Enough pages are the whole list.
  pub pages-all : (n size : ℕ) (xs : List A) → length xs ≤ n * size → pages n size xs ≡ xs
  pages-all n size xs h = pages-take n size xs ∙ take-all (n * size) xs h
