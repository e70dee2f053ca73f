-- ===== src/Base/Finding.antt =====
-- What a search finds after the list has been rewritten.
use mathlib.Core.Path.{◌≡◌, refl}
use mathlib.Core.Bool.{Bool, true, false}
use mathlib.Core.Option.{none, some}
use mathlib.Core.List.{List, [], ◌∷◌, ◌++◌}
use native.Mathlib.Omega.{arith}
use flowdeck_backend.Base.Lists.{count, find, find_sound, map_first}
use flowdeck_backend.Base.Tests.{if◌then◌else◌}

module _ {ℓ} {A : Type ℓ} (p : A → Bool) where
  pub find-none : (xs : List A) → count p xs ≡ 0 → find p xs ≡ none
  find-none [] h = refl
  find-none (x ∷ xs) h = ground (arith, find-none xs)

  pub find-append_new :
      (xs : List A) (a : A) → find p xs ≡ none → p a ≡ true → find p (xs ++ a ∷ []) ≡ some a
  find-append_new [] a e h = ground arith
  find-append_new (x ∷ xs) a e h = ground (arith, find-append_new xs a)

  pub find-map_first :
      (f : A → A) (xs : List A) (a : A)
      → find p xs ≡ some a
      → p (f a) ≡ true
      → find p (map_first p f xs) ≡ some (f a)
  find-map_first f [] a e h = cc
  find-map_first f (x ∷ xs) a e h = ground (arith, find-map_first f xs a)

module _ {ℓ} {A : Type ℓ} (p q : A → Bool) where
  -- Rewriting elements that the search passes over.
  pub find-map_first_other :
      (f : A → A) (xs : List A)
      → ((a : A) → q a ≡ true → (p a ≡ false) × (p (f a) ≡ false))
      → find p (map_first q f xs) ≡ find p xs
  find-map_first_other f [] h = refl
  find-map_first_other f (x ∷ xs) h = ground (arith, h x, find-map_first_other f xs h)

  -- Two searches that find the same element rewrite the same one.
  pub map_first-same :
      (f : A → A) (xs : List A) (a : A)
      → find p xs ≡ some a
      → find q xs ≡ some a
      → map_first p f xs ≡ map_first q f xs
  map_first-same f [] a e e' = refl
  map_first-same f (x ∷ xs) a e e' =
      ground (arith, map_first-same f xs a, find_sound p xs a, find_sound q xs a)

module _ {ℓ} {A : Type ℓ} (p : A → Bool) where
  pub find-append_some : (xs ys : List A) (a : A) → find p xs ≡ some a → find p (xs ++ ys) ≡ some a
  find-append_some [] ys a e = cc
  find-append_some (x ∷ xs) ys a e = ground (arith, find-append_some xs ys a)

  pub find-append_absent :
      (xs : List A) (a : A)
      → find p xs ≡ none
      → find p (xs ++ a ∷ []) ≡ (if p a then some a else none)
  find-append_absent [] a e = refl
  find-append_absent (x ∷ xs) a e = ground (arith, find-append_absent xs a)
