-- ===== src/Common/Table.antt =====
-- The SQL statements of the store over a table, a list of rows in the order of insertion.
use Prim.Native.Nat.{ℕ, suc, ◌+◌, ◌≤◌}
use mathlib.Core.Path.{◌≡◌, refl}
use mathlib.Core.Logic.{inl, inr}
use mathlib.Core.Bool.{Bool, true, false, ◌||◌}
use mathlib.Core.Option.{Option, none, some}
use mathlib.Core.Option
use mathlib.Core.List.{List, [], ◌∷◌, ◌++◌}
use native.Mathlib.Omega.{arith}
use codexbot.Common.Tests.{if◌then◌else◌, Bool-cases}
use codexbot.Common.Lists.{All}

module _ {ℓ} {A : Type ℓ} where
  -- EXISTS (SELECT 1 ... WHERE p)
  abbrev pub any : (A → Bool) → List A → Bool
  any p [] = false
  any p (x ∷ xs) = p x || any p xs

  -- SELECT count(*) ... WHERE p
  abbrev pub count : (A → Bool) → List A → ℕ
  count p [] = 0
  count p (x ∷ xs) = if p x then suc (count p xs) else count p xs

  -- SELECT ... WHERE p, the first row
  abbrev pub find? : (A → Bool) → List A → Option A
  find? p [] = none
  find? p (x ∷ xs) = if p x then some x else find? p xs

  -- SELECT ... WHERE p, every row
  abbrev pub select : (A → Bool) → List A → List A
  select p [] = []
  select p (x ∷ xs) = if p x then x ∷ select p xs else select p xs

  -- UPDATE ... SET f WHERE p
  abbrev pub update : (A → Bool) → (A → A) → List A → List A
  update p f [] = []
  update p f (x ∷ xs) = (if p x then f x else x) ∷ update p f xs

  -- DELETE ... WHERE p
  abbrev pub delete : (A → Bool) → List A → List A
  delete p [] = []
  delete p (x ∷ xs) = if p x then delete p xs else x ∷ delete p xs

  -- INSERT at the end of the table
  abbrev pub insert : A → List A → List A
  insert a xs = xs ++ a ∷ []

module _ {ℓ} {A : Type ℓ} (p : A → Bool) where
  pub count-append : (xs ys : List A) → count p (xs ++ ys) ≡ count p xs + count p ys
  count-append [] ys = omega arith
  count-append (x ∷ xs) ys = ground (arith, count-append xs ys)

  pub count-zero_of_any : (xs : List A) → any p xs ≡ false → count p xs ≡ 0
  count-zero_of_any [] h = refl
  count-zero_of_any (x ∷ xs) h = ground (arith, count-zero_of_any xs)

  pub find?-none_of_any : (xs : List A) → any p xs ≡ false → find? p xs ≡ none
  find?-none_of_any [] h = refl
  find?-none_of_any (x ∷ xs) h = ground (arith, find?-none_of_any xs)

  pub find?-append : (xs ys : List A) → find? p xs ≡ none → find? p (xs ++ ys) ≡ find? p ys
  find?-append [] ys h = refl
  find?-append (x ∷ xs) ys h = ground (arith, find?-append xs ys)

  pub find?-append_some :
      (xs ys : List A) (a : A) → find? p xs ≡ some a → find? p (xs ++ ys) ≡ some a
  find?-append_some [] ys a h = ground arith
  find?-append_some (x ∷ xs) ys a h = ground (arith, find?-append_some xs ys a)

  -- What is found meets the test.
  pub find?-sound : (xs : List A) (a : A) → find? p xs ≡ some a → p a ≡ true
  find?-sound [] a h = ground arith
  find?-sound (x ∷ xs) a h = ground (arith, find?-sound xs a, h)

module _ {ℓ} {A : Type ℓ} (p q : A → Bool) where
  -- An update that makes no row meet `q` that did not meet it does not raise the count.
  pub count-update-le :
      (f : A → A) (xs : List A)
      → ((x : A) → p x ≡ true → q (f x) ≡ true → q x ≡ true)
      → count q (update p f xs) ≤ count q xs
  count-update-le f [] h = omega arith
  count-update-le f (x ∷ xs) h = ground (arith, h x, count-update-le f xs h)

  -- After an update that takes rows out of `q`, no row meets both.
  pub any-update_none :
      (f : A → A) (xs : List A)
      → ((x : A) → p x ≡ true → q (f x) ≡ false)
      → ((x : A) → p x ≡ false → q x ≡ false)
      → any q (update p f xs) ≡ false
  any-update_none f [] h k = refl
  any-update_none f (x ∷ xs) h k = ground (arith, h x, k x, any-update_none f xs h k)

  -- A row that is found under a key that the update keeps is found updated.
  pub find?-update :
      (f : A → A) (xs : List A)
      → ((x : A) → p x ≡ true → q (f x) ≡ q x)
      → find? q (update p f xs) ≡ Option.map (λ x. if p x then f x else x) (find? q xs)
  find?-update f [] h = refl
  find?-update f (x ∷ xs) h = ground (arith, h x, find?-update f xs h)

module _ {ℓ κ} {A : Type ℓ} (P Q : A → Type κ) (p : A → Bool) (f : A → A) where
  -- An update takes every row from `P` to `Q`.
  pub All-update :
      ((a : A) → p a ≡ true → P a → Q (f a))
      → ((a : A) → p a ≡ false → P a → Q a)
      → (xs : List A) → All P xs
      → All Q (update p f xs)
  All-update hit miss [] h = tt
  All-update hit miss (x ∷ xs) (h, hs) = elim (Bool-cases (p x)) [
    | inl e ↦ rw e (hit x e h, All-update hit miss xs hs)
    | inr e ↦ rw e (miss x e h, All-update hit miss xs hs)
  ]

module _ {ℓ} {A : Type ℓ} (p : A → Bool) where
  pub any-none_of_All : (xs : List A) → All (λ x. p x ≡ false) xs → any p xs ≡ false
  any-none_of_All [] h = refl
  any-none_of_All (x ∷ xs) (h, hs) = ground (arith, h, any-none_of_All xs hs)
