-- ===== src/Prelude/Sorted/Shuffled.antt =====
-- Sorting by insertion does not depend on the order of a list.
use mathlib.Core.Path.{◌≡◌, refl, ap, sym, ◌∙◌}
use mathlib.Core.Logic.{inl, inr}
use mathlib.Core.Bool.{Bool, true, false, not}
use mathlib.Core.List.{List, [], ◌∷◌, ◌++◌, map}
use native.Mathlib.Omega.{arith}
use nixos_kaiba_network.Prelude.Tests.{Bool-cases}
use nixos_kaiba_network.Prelude.Lists.{All, keep}
use nixos_kaiba_network.Prelude.Sorted.{TotalOrder, insert, sort}

module _ {ℓ} {A : Type ℓ} ⦃o : TotalOrder A⦄ where
  not_above : (x y : A) → o.lt x y ≡ true → o.lt y x ≡ false
  not_above x y h = elim (Bool-cases (o.lt y x)) [
    | inr e ↦ e
    | inl e ↦ let both = o.trans x y x h e in let irr = o.irrefl x in cc
  ]

  insert_below :
      (x y : A) (zs : List A)
      → o.lt x y ≡ true
      → insert o.lt x (insert o.lt y zs) ≡ insert o.lt y (insert o.lt x zs)
  unfolding insert
  insert_below x y [] h = ground (arith, not_above x y h)
  insert_below x y (z ∷ zs) h =
      ground (arith, not_above x y h, o.trans x y z h, insert_below x y zs h)

  insert_comm :
      (x y : A) (zs : List A) → insert o.lt x (insert o.lt y zs) ≡ insert o.lt y (insert o.lt x zs)
  insert_comm x y zs = elim (Bool-cases (o.lt x y)) [
    | inl e ↦ insert_below x y zs e
    | inr e ↦ elim (Bool-cases (o.lt y x)) [
      | inl f ↦ sym (insert_below y x zs f)
      | inr f ↦ rw (o.tri x y e f) refl
    ]
  ]

  sort_middle :
      (xs : List A) (y : A) (ys : List A)
      → sort o.lt (xs ++ y ∷ ys) ≡ insert o.lt y (sort o.lt (xs ++ ys))
  unfolding sort
  sort_middle [] y ys = refl
  sort_middle (x ∷ xs) y ys =
      ap (insert o.lt x) (sort_middle xs y ys) ∙ insert_comm x y (sort o.lt (xs ++ ys))

  -- The elements that pass one test and those that pass the other, where each passes just one.
  pub sort_split {κ} :
      {B : Type κ} (f : B → A) (p q : B → Bool) (xs : List B)
      → All (λ x. q x ≡ not (p x)) xs
      → sort o.lt (map f (keep p xs) ++ map f (keep q xs)) ≡ sort o.lt (map f xs)
  unfolding sort
  sort_split f p q [] h = refl
  sort_split f p q (x ∷ xs) h = elim (Bool-cases (p x)) [
    | inl e ↦
        let e' : q x ≡ false = ground (arith, h.0) in
        rw (e, e') (ap (insert o.lt (f x)) (sort_split f p q xs h.1))
    | inr e ↦
        let e' : q x ≡ true = ground (arith, h.0) in
        rw (e, e')
          (sort_middle (map f (keep p xs)) (f x) (map f (keep q xs))
            ∙ ap (insert o.lt (f x)) (sort_split f p q xs h.1))
  ]
