-- ===== src/Prelude/Unique.antt =====
-- An order by distinct keys has one result, whatever sorts.
use learnvault.Prelude.Tests.{leb, Bool-cases}
use learnvault.Prelude.Lists.{All}
use learnvault.Prelude.Rows.{DistinctBy}
use learnvault.Prelude.Sort.{insert_desc, sort_desc, IsSortedDesc, sort-IsSortedDesc, sort-perm}
use Prim.Native.Nat.{ℕ, ◌≤◌}
use native.Mathlib.Omega.{arith}
use mathlib.Core.Path.{◌≡◌, refl, ap, sym, subst}
use mathlib.Core.Logic.{◌≢◌, inl, inr}
use mathlib.Core.List.{List, [], ◌∷◌, Perm, Memᴰ}
use mathlib.Core.List.Perm
use mathlib.Core.Logic.{∥∥₁_elim}

module _ {ℓ} {A : Type ℓ} where
  All-mem : (P : A → Type 0) (a : A) (xs : List A) → All P xs → Memᴰ a xs → P a
  All-mem P a [] h m = elim m [ ]
  All-mem P a (x ∷ xs) h (Memᴰ.head e) = subst P (sym e) h.0
  All-mem P a (x ∷ xs) h (Memᴰ.tail m) = All-mem P a xs h.1 m

module _ {ℓ} {A : Type ℓ} (set : IsSet A) (key : A → ℕ) where
  same_head :
      (x y : A) (xs ys : List A)
      → IsSortedDesc key (x ∷ xs)
      → IsSortedDesc key (y ∷ ys)
      → DistinctBy key (x ∷ xs)
      → Memᴰ x (y ∷ ys)
      → Memᴰ y (x ∷ xs)
      → x ≡ y
  same_head x y xs ys h k d (Memᴰ.head e) m = e
  same_head x y xs ys h k d (Memᴰ.tail l) (Memᴰ.head e) = sym e
  same_head x y xs ys h k d (Memᴰ.tail l) (Memᴰ.tail m) =
      let below = All-mem (λ z. key z ≤ key y) x ys k.0 l in
      let above = All-mem (λ z. key z ≤ key x) y xs h.0 m in
      let other : key x ≢ key y = All-mem (λ z. key x ≢ key z) y xs d.0 m in
      absurd (other (omega arith))

  pub sorted_unique :
      (xs ys : List A)
      → IsSortedDesc key xs
      → IsSortedDesc key ys
      → DistinctBy key xs
      → Perm xs ys
      → xs ≡ ys
  sorted_unique [] ys h k d p = Perm.nil-eq p
  sorted_unique (x ∷ xs) [] h k d p = Perm.eq-nil p
  sorted_unique (x ∷ xs) (y ∷ ys) h k d p =
      let here : x ≡ y = ∥∥₁_elim ((Perm.mem_iff p).0 ∣ Memᴰ.head refl ∣₁) (set x y) (λ l.
        ∥∥₁_elim ((Perm.mem_iff p).1 ∣ Memᴰ.head refl ∣₁) (set x y)
          (λ m. same_head x y xs ys h k d l m)) in
      let rest : Perm (x ∷ xs) (x ∷ ys) = subst (λ z. Perm (x ∷ xs) (z ∷ ys)) (sym here) p in
      rw here (ap (λ zs. y ∷ zs) (sorted_unique xs ys h.1 k.1 d.1 (Perm.cons_inv rest)))

module _ {ℓ} {A : Type ℓ} (key : A → ℕ) where
  insert-All :
      (P : A → Type 0) (x : A) (xs : List A) → P x → All P xs → All P (insert_desc key x xs)
  insert-All P x [] h k = (h, tt)
  insert-All P x (y ∷ ys) h k = elim (Bool-cases (leb (key y) (key x))) [
    | inl e ↦ rw e (h, k)
    | inr e ↦ rw e (k.0, insert-All P x ys h k.1)
  ]

  sort-All : (P : A → Type 0) (xs : List A) → All P xs → All P (sort_desc key xs)
  sort-All P [] h = tt
  sort-All P (x ∷ xs) h = insert-All P x (sort_desc key xs) h.0 (sort-All P xs h.1)

  insert-DistinctBy :
      (x : A) (xs : List A)
      → All (λ y. key x ≢ key y) xs
      → DistinctBy key xs
      → DistinctBy key (insert_desc key x xs)
  insert-DistinctBy x [] h d = (tt, tt)
  insert-DistinctBy x (y ∷ ys) h d = elim (Bool-cases (leb (key y) (key x))) [
    | inl e ↦ rw e (h, d)
    | inr e ↦ rw e (
      insert-All (λ z. key y ≢ key z) x ys (λ same. h.0 (sym same)) d.0,
      insert-DistinctBy x ys h.1 d.1,
    )
  ]

  sort-DistinctBy : (xs : List A) → DistinctBy key xs → DistinctBy key (sort_desc key xs)
  sort-DistinctBy [] d = tt
  sort-DistinctBy (x ∷ xs) d =
      insert-DistinctBy x (sort_desc key xs) (sort-All (λ y. key x ≢ key y) xs d.0)
        (sort-DistinctBy xs d.1)

  -- What an order gives that sorts the rows, whatever it does with equal keys.
  pub sort_unique :
      IsSet A
      → (xs ys : List A) → DistinctBy key xs
      → Perm ys xs
      → IsSortedDesc key ys
      → sort_desc key xs ≡ ys
  sort_unique set xs ys d p sorted =
      sorted_unique set key (sort_desc key xs) ys (sort-IsSortedDesc key xs) sorted
        (sort-DistinctBy xs d) (Perm.trans (sort-perm key xs) (Perm.symm p))
