-- ===== src/Prelude/Sorted.antt =====
-- Strict total orders given by Boolean tests, sorting by insertion, and why two strictly ascending
-- lists with the same members are one list.
pub mod Shuffled
use mathlib.Core.Path.{◌≡◌, refl, ap₂}
use mathlib.Core.Logic.{◌↔◌, ◌⊎◌, inl, inr}
use mathlib.Core.Bool.{Bool, true, false, ◌||◌}
use mathlib.Core.List.{List, [], ◌∷◌, ◌++◌}
use native.Mathlib.Omega.{arith}
use nixos_kaiba_network.Prelude.Tests.{if◌then◌else◌, Bool-cases}
use nixos_kaiba_network.Prelude.Lists.{All}

pub record TotalOrder {ℓ} (A : Type ℓ) : Type ℓ where
  pub lt : A → A → Bool
  pub eq : A → A → Bool
  pub eq_iff : (a b : A) → (eq a b ≡ true) ↔ (a ≡ b)
  pub irrefl : (a : A) → lt a a ≡ false
  pub trans : (a b c : A) → lt a b ≡ true → lt b c ≡ true → lt a c ≡ true
  pub tri : (a b : A) → lt a b ≡ false → lt b a ≡ false → a ≡ b

-- `sort.Slice` by the test `lt`; its contract fixes the result where no two elements are tied.
module _ {ℓ} {A : Type ℓ} (lt : A → A → Bool) where
  unfoldable pub insert : A → List A → List A
  insert x [] = x ∷ []
  insert x (y ∷ ys) = if lt x y then x ∷ y ∷ ys else y ∷ insert x ys

  unfoldable pub sort : List A → List A
  unfolding insert
  sort [] = []
  sort (x ∷ xs) = insert x (sort xs)

  abbrev pub Above : A → List A → Type 0
  Above x = All (λ y. lt x y ≡ true)

  abbrev pub Ascending : List A → Type 0
  Ascending [] = Unit
  Ascending (x ∷ xs) = Above x xs × Ascending xs

module _ {ℓ} {A : Type ℓ} ⦃o : TotalOrder A⦄ where
  unfoldable pub elem : A → List A → Bool
  elem a [] = false
  elem a (x ∷ xs) = o.eq a x || elem a xs

  Above-trans : (x y : A) (zs : List A) → o.lt x y ≡ true → Above o.lt y zs → Above o.lt x zs
  Above-trans x y [] p h = tt
  Above-trans x y (z ∷ zs) p h = (o.trans x y z p h.0, Above-trans x y zs p h.1)

  pub eq_refl : (a : A) → o.eq a a ≡ true
  eq_refl a = (o.eq_iff a a).1 refl

  pub eq_sound : (a b : A) → o.eq a b ≡ true → a ≡ b
  eq_sound a b h = (o.eq_iff a b).0 h

  eq_false_of_lt : (a b : A) → o.lt a b ≡ true → o.eq a b ≡ false
  eq_false_of_lt a b h = elim (Bool-cases (o.eq a b)) [
    | inl e ↦ let irr = o.irrefl b in let h' = rw (eq_sound a b e) at h in cc
    | inr e ↦ e
  ]

  eq_false_of_gt : (a b : A) → o.lt b a ≡ true → o.eq a b ≡ false
  eq_false_of_gt a b h = elim (Bool-cases (o.eq a b)) [
    | inl e ↦ let irr = o.irrefl b in let h' = rw (eq_sound a b e) at h in cc
    | inr e ↦ e
  ]

  -- What stands below all of a list is no member of it.
  pub elem-Above : (a : A) (xs : List A) → Above o.lt a xs → elem a xs ≡ false
  unfolding elem
  elem-Above a [] h = refl
  elem-Above a (x ∷ xs) h = ground (arith, eq_false_of_lt a x, elem-Above a xs h.1)

  lt_of_elem : (x a : A) (xs : List A) → Above o.lt x xs → elem a xs ≡ true → o.lt x a ≡ true
  unfolding elem
  lt_of_elem x a [] h m = cc
  lt_of_elem x a (y ∷ ys) h m = elim (Bool-cases (o.eq a y)) [
    | inl e ↦ rw (eq_sound a y e) h.0
    | inr e ↦ lt_of_elem x a ys h.1 (ground arith)
  ]

  pub elem-append : (a : A) (xs ys : List A) → elem a (xs ++ ys) ≡ (elem a xs || elem a ys)
  unfolding elem
  elem-append a [] ys = refl
  elem-append a (x ∷ xs) ys = ground (arith, elem-append a xs ys)

  pub elem-insert : (a x : A) (xs : List A) → elem a (insert o.lt x xs) ≡ (o.eq a x || elem a xs)
  unfolding elem insert
  elem-insert a x [] = refl
  elem-insert a x (y ∷ ys) = ground (arith, elem-insert a x ys)

  pub elem-sort : (a : A) (xs : List A) → elem a (sort o.lt xs) ≡ elem a xs
  unfolding elem sort
  elem-sort a [] = refl
  elem-sort a (x ∷ xs) = ground (arith, elem-insert a x (sort o.lt xs), elem-sort a xs)

  Above-insert :
      (x y : A) (ys : List A) → o.lt x y ≡ true → Above o.lt x ys → Above o.lt x (insert o.lt y ys)
  unfolding insert
  Above-insert x y [] p h = (p, tt)
  Above-insert x y (z ∷ zs) p h = ground (arith, Above-insert x y zs p h.1)

  insert-Ascending :
      (x : A) (ys : List A)
      → elem x ys ≡ false
      → Ascending o.lt ys
      → Ascending o.lt (insert o.lt x ys)
  unfolding elem insert
  insert-Ascending x [] n h = (tt, tt)
  insert-Ascending x (y ∷ ys) n h = elim (Bool-cases (o.lt x y)) [
    | inl l ↦ rw l ((l, Above-trans x y ys l h.0), h)
    | inr l ↦ rw l (
      Above-insert y x ys (above (Bool-cases (o.lt y x)) l) h.0,
      insert-Ascending x ys (ground arith) h.1,
    )
  ]
    where
      above : (o.lt y x ≡ true) ⊎ (o.lt y x ≡ false) → o.lt x y ≡ false → o.lt y x ≡ true
      above (inl g) l = g
      above (inr g) l = let e = (o.eq_iff x y).1 (o.tri x y l g) in ground arith

  abbrev pub Distinct : List A → Type 0
  Distinct [] = Unit
  Distinct (x ∷ xs) = (elem x xs ≡ false) × Distinct xs

  -- Sorting a list without repetitions gives a strictly ascending one.
  pub sort-Ascending : (xs : List A) → Distinct xs → Ascending o.lt (sort o.lt xs)
  unfolding sort
  sort-Ascending [] h = tt
  sort-Ascending (x ∷ xs) h =
      insert-Ascending x (sort o.lt xs) (rw (elem-sort x xs) h.0) (sort-Ascending xs h.1)

  pub Ascending-Distinct : (xs : List A) → Ascending o.lt xs → Distinct xs
  Ascending-Distinct [] h = tt
  Ascending-Distinct (x ∷ xs) h = (elem-Above x xs h.0, Ascending-Distinct xs h.1)

  abbrev pub SameMembers : List A → List A → Type ℓ
  SameMembers xs ys = (a : A) → elem a xs ≡ elem a ys

  heads_eq :
      (x y : A) (xs ys : List A)
      → Above o.lt x xs
      → Above o.lt y ys
      → SameMembers (x ∷ xs) (y ∷ ys)
      → x ≡ y
  unfolding elem
  heads_eq x y xs ys hx hy s = elim (Bool-cases (o.eq x y)) [
    | inl e ↦ eq_sound x y e
    | inr e ↦ absurd (
        let x_in : elem x ys ≡ true = ground (arith, s x, eq_refl x) in
        let p = lt_of_elem y x ys hy x_in in
        let n = eq_false_of_lt y x p in
        let y_in : elem y xs ≡ true = ground (arith, s y, eq_refl y) in
        let q = lt_of_elem x y xs hx y_in in
        let r = o.trans x y x q p in let irr = o.irrefl x in cc)
  ]

  -- Two strictly ascending lists with the same members are equal.
  pub Ascending-eq :
      (xs ys : List A) → Ascending o.lt xs → Ascending o.lt ys → SameMembers xs ys → xs ≡ ys
  unfolding elem
  Ascending-eq [] [] hx hy s = refl
  Ascending-eq [] (y ∷ ys) hx hy s = ground (arith, s y, eq_refl y)
  Ascending-eq (x ∷ xs) [] hx hy s = ground (arith, s x, eq_refl x)
  Ascending-eq (x ∷ xs) (y ∷ ys) hx hy s =
      let e = heads_eq x y xs ys hx.0 hy.0 s in ap₂ ◌∷◌ e (Ascending-eq xs ys hx.1 hy.1 tails)
    where
      tails : SameMembers xs ys
      tails a = elim (Bool-cases (o.eq a x)) [
        | inl h ↦ ground (
          arith,
          eq_sound a x h,
          heads_eq x y xs ys hx.0 hy.0 s,
          elem-Above x xs hx.0,
          elem-Above y ys hy.0,
        )
        | inr h ↦ ground (arith, s a, heads_eq x y xs ys hx.0 hy.0 s)
      ]

  -- A strictly ascending list is not changed by sorting it.
  pub sort-eq_of_Ascending : (xs : List A) → Ascending o.lt xs → sort o.lt xs ≡ xs
  sort-eq_of_Ascending xs h =
      Ascending-eq (sort o.lt xs) xs (sort-Ascending xs (Ascending-Distinct xs h)) h
        (λ a. elem-sort a xs)
