-- ===== src/Base/Counting.antt =====
-- How the number of elements that pass a test changes when the list is rewritten.
use Prim.Native.Nat.{◌+◌, ◌≤◌}
use mathlib.Core.Path.{◌≡◌, refl, subst, sym}
use mathlib.Core.Bool.{Bool, true, false, ◌&&◌}
use mathlib.Core.Option.{none, some}
use mathlib.Core.Logic.{inl, inr}
use mathlib.Core.List.{List, [], ◌∷◌, ◌++◌}
use native.Mathlib.Omega.{arith}
use flowdeck_backend.Base.Tests.{Bool-cases, if◌then◌else◌}
use flowdeck_backend.Base.Lists.{All, count, find, map_first, map_where, remove_first}

module _ {ℓ} {A : Type ℓ} where
  -- Tests that agree on every element count the same.
  pub count_ext : (p q : A → Bool) (xs : List A) → All (λ x. p x ≡ q x) xs → count p xs ≡ count q xs
  count_ext p q [] h = refl
  count_ext p q (x ∷ xs) h = ground (arith, count_ext p q xs h.1)

  pub find-count_pos : (p : A → Bool) (xs : List A) (a : A) → find p xs ≡ some a → 1 ≤ count p xs
  find-count_pos p [] a h = cc
  find-count_pos p (x ∷ xs) a h = ground (arith, find-count_pos p xs a)

  pub find-count_zero : (p : A → Bool) (xs : List A) → find p xs ≡ none → count p xs ≡ 0
  find-count_zero p [] h = refl
  find-count_zero p (x ∷ xs) h = ground (arith, find-count_zero p xs)

module _ {ℓ} {A : Type ℓ} (p q : A → Bool) where
  -- Rewriting the first element that passes `p` moves the counts by that element alone.
  pub count-map_first :
      (f : A → A) (xs : List A) (a : A)
      → find p xs ≡ some a
      → count q (map_first p f xs) + (if q a then 1 else 0)
        ≡ count q xs + (if q (f a) then 1 else 0)
  count-map_first f [] a e = cc
  count-map_first f (x ∷ xs) a e = ground (arith, count-map_first f xs a)

  pub count-remove_first :
      (xs : List A) (a : A)
      → find p xs ≡ some a
      → count q (remove_first p xs) + (if q a then 1 else 0) ≡ count q xs
  count-remove_first [] a e = cc
  count-remove_first (x ∷ xs) a e = ground (arith, count-remove_first xs a)

  pub find-count_pos_by : (xs : List A) (a : A) → find p xs ≡ some a → q a ≡ true → 1 ≤ count q xs
  find-count_pos_by [] a e h = cc
  find-count_pos_by (x ∷ xs) a e h = ground (arith, find-count_pos_by xs a)

  -- An element found by one test is the one that a test finds which it alone passes.
  pub find_unique :
      (xs : List A) (a : A) → find p xs ≡ some a → q a ≡ true → count q xs ≤ 1 → find q xs ≡ some a
  find_unique [] a e h u = cc
  find_unique (x ∷ xs) a e h u = ground (arith, find_unique xs a, find-count_pos_by xs a)

module _ {ℓ} {A : Type ℓ} (p : A → Bool) where
  pub map_first-absent : (f : A → A) (xs : List A) → find p xs ≡ none → map_first p f xs ≡ xs
  map_first-absent f [] e = refl
  map_first-absent f (x ∷ xs) e = ground (arith, map_first-absent f xs)

module _ {ℓ κ} {A : Type ℓ} (P P' : A → Type κ) (p : A → Bool) where
  pub All-of_none :
      (xs : List A) → count p xs ≡ 0 → ((a : A) → p a ≡ false → P a → P' a) → All P xs → All P' xs
  All-of_none [] z other h = tt
  All-of_none (x ∷ xs) z other h =
      (other x (ground arith) h.0, All-of_none xs (ground arith) other h.1)

  -- A predicate on every element, when the one element that passes `p` is rewritten.
  pub All-map_first :
      (f : A → A) (xs : List A)
      → count p xs ≤ 1
      → ((a : A) → p a ≡ false → P a → P' a)
      → ((a : A) → p a ≡ true → P a → P' (f a))
      → All P xs
      → All P' (map_first p f xs)
  All-map_first f [] u other self h = tt
  All-map_first f (x ∷ xs) u other self h = elim (Bool-cases (p x)) [
    | inl e ↦ rw e (self x e h.0, All-of_none xs (ground arith) other h.1)
    | inr e ↦ rw e (other x e h.0, All-map_first f xs (ground arith) other self h.1)
  ]

module _ {ℓ} {A : Type ℓ} (p q : A → Bool) where
  -- Rewriting an element in a way that the test does not see.
  pub count-map_first_same :
      (f : A → A) (xs : List A)
      → ((a : A) → p a ≡ true → q (f a) ≡ q a)
      → count q (map_first p f xs) ≡ count q xs
  count-map_first_same f [] h = refl
  count-map_first_same f (x ∷ xs) h = ground (arith, h x, count-map_first_same f xs h)

  pub count-and : (xs : List A) → count (λ d. p d && q d) xs ≤ count p xs
  count-and [] = ground arith
  count-and (x ∷ xs) = ground (arith, count-and xs)

  -- Of elements of which at most one passes `p`, the one found decides how many pass `q` as well.
  pub count-found :
      (xs : List A) (a : A)
      → find p xs ≡ some a
      → count p xs ≤ 1
      → count (λ d. p d && q d) xs ≡ (if q a then 1 else 0)
  count-found [] a e u = cc
  count-found (x ∷ xs) a e u = ground (arith, count-found xs a, count-and xs)

module _ {ℓ κ} {A : Type ℓ} (P : A → Type κ) where
  pub All-append : (xs ys : List A) → All P xs → All P ys → All P (xs ++ ys)
  All-append [] ys h k = k
  All-append (x ∷ xs) ys h k = (h.0, All-append xs ys h.1 k)

  pub find-All : (p : A → Bool) (xs : List A) (a : A) → find p xs ≡ some a → All P xs → P a
  find-All p [] a e h = cc
  find-All p (x ∷ xs) a e h = elim (Bool-cases (p x)) [
    | inl t ↦ subst P (ground arith) h.0
    | inr f ↦ find-All p xs a (ground arith) h.1
  ]

pub All-map {ℓ κ} :
    {A : Type ℓ} (P P' : A → Type κ) (xs : List A) → ((a : A) → P a → P' a) → All P xs → All P' xs
All-map P P' [] f h = tt
All-map P P' (x ∷ xs) f h = (f x h.0, All-map P P' xs f h.1)

module _ {ℓ κ} {A : Type ℓ} (P P' : A → Type κ) (p : A → Bool) where
  -- `All-map_first` where the element that is rewritten is known.
  pub All-map_first_found :
      (f : A → A) (xs : List A) (a : A)
      → find p xs ≡ some a
      → count p xs ≤ 1
      → ((a : A) → p a ≡ false → P a → P' a)
      → (P a → P' (f a))
      → All P xs
      → All P' (map_first p f xs)
  All-map_first_found f [] a e u other self h = tt
  All-map_first_found f (x ∷ xs) a e u other self h = elim (Bool-cases (p x)) [
    | inl t ↦
        let same : x ≡ a = ground arith in
        rw t (
          subst (λ y. P' (f y)) (sym same) (self (subst P same h.0)),
          All-of_none P P' p xs (ground arith) other h.1,
        )
    | inr t ↦
        rw t
          (other x t h.0, All-map_first_found f xs a (ground arith) (ground arith) other self h.1)
  ]

module _ {ℓ} {A : Type ℓ} (p : A → Bool) (f : A → A) where
  map_where-absent : (xs : List A) → count p xs ≡ 0 → map_where p f xs ≡ xs
  map_where-absent [] z = refl
  map_where-absent (x ∷ xs) z = ground (arith, map_where-absent xs)

  -- Where at most one element passes the test, rewriting the first is rewriting all.
  pub map_first-eq-map_where : (xs : List A) → count p xs ≤ 1 → map_first p f xs ≡ map_where p f xs
  map_first-eq-map_where [] u = refl
  map_first-eq-map_where (x ∷ xs) u = ground (arith, map_first-eq-map_where xs, map_where-absent xs)
