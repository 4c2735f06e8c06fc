-- ===== src/Base/Sorting.antt =====
-- sort.Strings and ORDER BY: a stable sort by a Boolean order, with its members and its order.
use mathlib.Core.Path.{◌≡◌, refl, subst}
use mathlib.Core.Bool.{Bool, true, false, ◌||◌}
use mathlib.Core.List.Permᴰ
use mathlib.Core.List.{List, [], ◌∷◌, Permᴰ}
use native.Mathlib.Omega.{arith}
use mathlib.Core.Logic.{inl, inr}
use oneops.Base.Tests.{if◌then◌else◌, Bool-cases}
use oneops.Base.Lists.{All}
use oneops.Base.Texts.{Text, text_eq, text_le, mem}

module _ {ℓ} {A : Type ℓ} (le : A → A → Bool) where
  insert_by : A → List A → List A
  insert_by x [] = x ∷ []
  insert_by x (y ∷ ys) = if le x y then x ∷ y ∷ ys else y ∷ insert_by x ys

  unfoldable pub sort_by : List A → List A
  unfolding insert_by
  sort_by [] = []
  sort_by (x ∷ xs) = insert_by x (sort_by xs)

  -- Each element is at most the next one.
  abbrev pub Ascending : List A → Type 0
  Ascending [] = Unit
  Ascending (x ∷ []) = Unit
  Ascending (x ∷ y ∷ ys) = (le x y ≡ true) × Ascending (y ∷ ys)

  -- A list that ascends is left as it is.
  pub sort_by-Ascending : (xs : List A) → Ascending xs → sort_by xs ≡ xs
  unfolding sort_by
  sort_by-Ascending [] h = refl
  sort_by-Ascending (x ∷ []) h = refl
  sort_by-Ascending (x ∷ y ∷ ys) h = ground (arith, sort_by-Ascending (y ∷ ys) h.1)

  insert_by-Ascending :
      ((a b : A) → le a b ≡ false → le b a ≡ true)
      → (x : A) (ys : List A) → Ascending ys
      → Ascending (insert_by x ys)
  unfolding insert_by
  insert_by-Ascending total x [] h = tt
  insert_by-Ascending total x (y ∷ []) h = ground (arith, total x y)
  insert_by-Ascending total x (y ∷ z ∷ zs) h =
      ground (arith, total x y, total x z, insert_by-Ascending total x (z ∷ zs) h.1)

  -- The result ascends, where the order is total.
  pub Ascending-sort_by :
      ((a b : A) → le a b ≡ false → le b a ≡ true) → (xs : List A) → Ascending (sort_by xs)
  unfolding sort_by
  Ascending-sort_by total [] = tt
  Ascending-sort_by total (x ∷ xs) =
      insert_by-Ascending total x (sort_by xs) (Ascending-sort_by total xs)

module _ {ℓ} {A : Type ℓ} (le : A → A → Bool) (P : A → Type 0) where
  All-insert_by : (x : A) (ys : List A) → P x → All P ys → All P (insert_by le x ys)
  unfolding insert_by
  All-insert_by x [] p h = (p, tt)
  All-insert_by x (y ∷ ys) p h = elim (Bool-cases (le x y)) [
    | inl e ↦ rw e (p, h)
    | inr e ↦ rw e (h.0, All-insert_by x ys p h.1)
  ]

  -- Sorting keeps what holds of all elements.
  pub All-sort_by : (xs : List A) → All P xs → All P (sort_by le xs)
  unfolding sort_by
  All-sort_by [] h = tt
  All-sort_by (x ∷ xs) h = All-insert_by x (sort_by le xs) h.0 (All-sort_by xs h.1)

module _ {ℓ} {A : Type ℓ} (le : A → A → Bool) where
  insert_by-Permᴰ : (x : A) (ys : List A) → Permᴰ (x ∷ ys) (insert_by le x ys)
  unfolding insert_by
  insert_by-Permᴰ x [] = Permᴰ.refl (x ∷ [])
  insert_by-Permᴰ x (y ∷ ys) = elim (Bool-cases (le x y)) [
    | inl e ↦ rw e (Permᴰ.refl (x ∷ y ∷ ys))
    | inr e ↦ rw e (Permᴰ.trans (Permᴰ.swap refl refl) (Permᴰ.cons refl (insert_by-Permᴰ x ys)))
  ]

  -- Sorting rearranges.
  pub Permᴰ-sort_by : (xs : List A) → Permᴰ xs (sort_by le xs)
  unfolding sort_by
  Permᴰ-sort_by [] = Permᴰ.nil
  Permᴰ-sort_by (x ∷ xs) =
      Permᴰ.trans (Permᴰ.cons refl (Permᴰ-sort_by xs)) (insert_by-Permᴰ x (sort_by le xs))

-- What holds of all elements holds of all of a rearrangement.
pub All-Permᴰ {ℓ} :
    {A : Type ℓ} (P : A → Type 0) {xs ys : List A} → Permᴰ xs ys → All P xs → All P ys
All-Permᴰ P Permᴰ.nil h = tt
All-Permᴰ P (Permᴰ.cons e r) h = (subst P e h.0, All-Permᴰ P r h.1)
All-Permᴰ P (Permᴰ.swap e f) h = (subst P f h.1.0, (subst P e h.0, h.1.1))
All-Permᴰ P (Permᴰ.trans r s) h = All-Permᴰ P s (All-Permᴰ P r h)

abbrev pub sort_strings : List Text → List Text
sort_strings = sort_by text_le

mem-insert_by :
    (t x : Text) (ys : List Text) → mem t (insert_by text_le x ys) ≡ (text_eq x t || mem t ys)
unfolding insert_by mem
mem-insert_by t x [] = ground arith
mem-insert_by t x (y ∷ ys) = ground (arith, mem-insert_by t x ys)

-- Sorting keeps the members.
pub mem-sort_strings : (t : Text) (xs : List Text) → mem t (sort_strings xs) ≡ mem t xs
unfolding sort_by mem
mem-sort_strings t [] = refl
mem-sort_strings t (x ∷ xs) =
    ground (arith, mem-insert_by t x (sort_strings xs), mem-sort_strings t xs)

-- The order of strings is total.
pub text_le_total : (s t : Text) → text_le s t ≡ false → text_le t s ≡ true
unfolding text_le
text_le_total [] t h = ground arith
text_le_total (a ∷ s) [] h = refl
text_le_total (a ∷ s) (b ∷ t) h = ground (arith, text_le_total s t)
