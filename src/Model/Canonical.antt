-- ===== src/Model/Canonical.antt =====
-- What `CanonicalAddresses` returns, and what `AddressesEqual` and `AddressesHash` compare.
use mathlib.Core.Path.{ap₂}
use nixos_kaiba_network.Prelude.{
  ◌≡◌, ◌↔◌, refl, sym, ap, ◌∙◌, true, false, not, ◌&&◌, inl, inr, List, [], ◌∷◌, map, some, arith,
  length, All, Bool-cases,
}
use nixos_kaiba_network.Prelude.Sorted.{
  sort, insert, elem, elem-sort, eq_refl, eq_sound, Ascending, Distinct, SameMembers,
  sort-Ascending, Ascending-eq,
}
use nixos_kaiba_network.Net.{Addr, invalid, v4, v6, is_valid, unmap, addr_eq, addr_lt, addr_order}
use nixos_kaiba_network.Model.{
  Platform, dedup, canonical_addresses, same_elements, addresses_equal, addresses_hash,
}

-- An address that is not IPv4-mapped.
abbrev pub IsPlain : Addr → Type 0
IsPlain a = unmap a ≡ a

pub unmap-IsPlain : (a : Addr) → IsPlain (unmap a)
unfolding unmap
unmap-IsPlain invalid = refl
unmap-IsPlain (v4 n) = refl
unmap-IsPlain (v6 n z) = ground arith

pub unmap_valid : (a : Addr) → is_valid a ≡ true → is_valid (unmap a) ≡ true
unfolding unmap is_valid
unmap_valid invalid h = h
unmap_valid (v4 n) h = h
unmap_valid (v6 n z) h = ground arith

elem-dedup :
    (x : Addr) (seen xs : List Addr)
    → elem x (dedup seen xs) ≡ (elem x (map unmap xs) && not (elem x seen))
unfolding dedup elem
elem-dedup x seen [] = refl
elem-dedup x seen (a ∷ more) = elim (Bool-cases (addr_eq x (unmap a))) [
  | inl e ↦
      ground
        (arith, eq_sound x (unmap a) e, elem-dedup x seen more, elem-dedup x (unmap a ∷ seen) more)
  | inr e ↦ ground (arith, elem-dedup x seen more, elem-dedup x (unmap a ∷ seen) more)
]

dedup-Distinct : (seen xs : List Addr) → Distinct (dedup seen xs)
unfolding dedup elem
dedup-Distinct seen [] = tt
dedup-Distinct seen (a ∷ more) = elim (Bool-cases (elem (unmap a) seen)) [
  | inl old ↦ rw old (dedup-Distinct seen more)
  | inr new ↦ rw new (fresh, dedup-Distinct (unmap a ∷ seen) more)
]
  where
    fresh : elem (unmap a) (dedup (unmap a ∷ seen) more) ≡ false
    fresh = ground (arith, elem-dedup (unmap a) (unmap a ∷ seen) more, eq_refl (unmap a))

pub elem-canonical :
    (x : Addr) (xs : List Addr) → elem x (canonical_addresses xs) ≡ elem x (map unmap xs)
unfolding canonical_addresses
elem-canonical x xs = elem-sort x (dedup [] xs) ∙ unfold elem in ground (arith, elem-dedup x [] xs)

pub canonical-Ascending : (xs : List Addr) → Ascending addr_lt (canonical_addresses xs)
unfolding canonical_addresses
canonical-Ascending xs = sort-Ascending (dedup [] xs) (dedup-Distinct [] xs)

-- For every address list, the canonical form is strictly ascending in `Compare` order, so it has
-- no duplicate, and its members are exactly the unmapped addresses of the list.
pub canonical_addresses_lem :
    (xs : List Addr)
    → Ascending addr_lt (canonical_addresses xs)
      × SameMembers (canonical_addresses xs) (map unmap xs)
canonical_addresses_lem xs = (canonical-Ascending xs, λ x. elem-canonical x xs)

module _ (P : Addr → Type 0) where
  All-insert : (x : Addr) (xs : List Addr) → P x → All P xs → All P (insert addr_lt x xs)
  unfolding insert
  All-insert x [] p h = (p, tt)
  All-insert x (y ∷ ys) p h = elim (Bool-cases (addr_lt x y)) [
    | inl e ↦ rw e (p, h)
    | inr e ↦ rw e (h.0, All-insert x ys p h.1)
  ]

  All-sort : (xs : List Addr) → All P xs → All P (sort addr_lt xs)
  unfolding sort
  All-sort [] h = tt
  All-sort (x ∷ xs) h = All-insert x (sort addr_lt xs) h.0 (All-sort xs h.1)

  All-dedup : (seen xs : List Addr) → All (λ a. P (unmap a)) xs → All P (dedup seen xs)
  unfolding dedup
  All-dedup seen [] h = tt
  All-dedup seen (a ∷ more) h = elim (Bool-cases (elem (unmap a) seen)) [
    | inl e ↦ rw e (All-dedup seen more h.1)
    | inr e ↦ rw e (h.0, All-dedup (unmap a ∷ seen) more h.1)
  ]

  pub All-canonical : (xs : List Addr) → All (λ a. P (unmap a)) xs → All P (canonical_addresses xs)
  unfolding canonical_addresses
  All-canonical xs h = All-sort (dedup [] xs) (All-dedup [] xs h)

All-unmap : (xs : List Addr) → All (λ a. IsPlain (unmap a)) xs
All-unmap [] = tt
All-unmap (x ∷ xs) = (unmap-IsPlain x, All-unmap xs)

pub canonical-IsPlain : (xs : List Addr) → All IsPlain (canonical_addresses xs)
canonical-IsPlain xs = All-canonical IsPlain xs (All-unmap xs)

abbrev pub IsValid : Addr → Type 0
IsValid a = is_valid a ≡ true

All-IsValid-unmap : (xs : List Addr) → All IsValid xs → All (λ a. IsValid (unmap a)) xs
All-IsValid-unmap [] h = tt
All-IsValid-unmap (x ∷ xs) h = (unmap_valid x h.0, All-IsValid-unmap xs h.1)

pub canonical-IsValid : (xs : List Addr) → All IsValid xs → All IsValid (canonical_addresses xs)
canonical-IsValid xs h = All-canonical IsValid xs (All-IsValid-unmap xs h)

pub map-unmap_of_plain : (xs : List Addr) → All IsPlain xs → map unmap xs ≡ xs
map-unmap_of_plain [] h = refl
map-unmap_of_plain (x ∷ xs) h = ap₂ ◌∷◌ h.0 (map-unmap_of_plain xs h.1)

-- Two lists have one canonical form exactly when they have the same unmapped members.
pub canonical-eq_of_SameMembers :
    (xs ys : List Addr)
    → SameMembers (map unmap xs) (map unmap ys)
    → canonical_addresses xs ≡ canonical_addresses ys
canonical-eq_of_SameMembers xs ys s =
    Ascending-eq (canonical_addresses xs) (canonical_addresses ys) (canonical-Ascending xs)
      (canonical-Ascending ys) (λ a. elem-canonical a xs ∙ s a ∙ sym (elem-canonical a ys))

SameMembers-of_canonical-eq :
    (xs ys : List Addr)
    → canonical_addresses xs ≡ canonical_addresses ys
    → SameMembers (map unmap xs) (map unmap ys)
SameMembers-of_canonical-eq xs ys e a =
    sym (elem-canonical a xs) ∙ ap (elem a) e ∙ elem-canonical a ys

pub canonical-canonical :
    (xs : List Addr) → canonical_addresses (canonical_addresses xs) ≡ canonical_addresses xs
canonical-canonical xs = canonical-eq_of_SameMembers (canonical_addresses xs) xs (λ a.
    ap (elem a) (map-unmap_of_plain (canonical_addresses xs) (canonical-IsPlain xs))
    ∙ elem-canonical a xs)

same_elements_sound :
    (xs ys : List Addr) → length xs ≡ length ys → same_elements xs ys ≡ true → xs ≡ ys
unfolding same_elements
same_elements_sound [] [] l h = refl
same_elements_sound [] (y ∷ ys) l h = absurd (omega arith)
same_elements_sound (x ∷ xs) [] l h = cc
same_elements_sound (x ∷ xs) (y ∷ ys) l h = elim (Bool-cases (addr_eq x y)) [
  | inl e ↦ ap₂ ◌∷◌ (eq_sound x y e) (same_elements_sound xs ys (omega arith) (ground arith))
  | inr e ↦ ground arith
]

same_elements_refl : (xs : List Addr) → same_elements xs xs ≡ true
unfolding same_elements
same_elements_refl [] = refl
same_elements_refl (x ∷ xs) = ground (arith, eq_refl x, same_elements_refl xs)

pub addresses_equal-canonical :
    (a b : List Addr)
    → (addresses_equal a b ≡ true) ↔ (canonical_addresses a ≡ canonical_addresses b)
unfolding addresses_equal
addresses_equal-canonical a b = (
  λ h.
      same_elements_sound (canonical_addresses a) (canonical_addresses b) (ground arith)
        (ground arith),
  λ e. rw e (ground (arith, same_elements_refl (canonical_addresses b))),
)

-- `AddressesEqual` answers true exactly when both lists have the same addresses after unmapping,
-- whatever their order and repetitions.
pub addresses_equal_iff :
    (a b : List Addr) → (addresses_equal a b ≡ true) ↔ SameMembers (map unmap a) (map unmap b)
addresses_equal_iff a b = (
  λ h. SameMembers-of_canonical-eq a b ((addresses_equal-canonical a b).0 h),
  λ s. (addresses_equal-canonical a b).1 (canonical-eq_of_SameMembers a b s),
)

module _ (platform : Platform) where
  open platform use {addr_string, parse_addr, parse-string, digest}

  map-string-injective :
      (xs ys : List Addr)
      → All IsValid xs
      → All IsValid ys
      → map addr_string xs ≡ map addr_string ys
      → xs ≡ ys
  map-string-injective [] [] hx hy e = refl
  map-string-injective [] (y ∷ ys) hx hy e = cc
  map-string-injective (x ∷ xs) [] hx hy e = cc
  map-string-injective (x ∷ xs) (y ∷ ys) hx hy e =
      ap₂ ◌∷◌ (some_inj (sym (parse-string x hx.0) ∙ ap parse_addr (cc) ∙ parse-string y hy.0))
        (map-string-injective xs ys hx.1 hy.1 (cc))
    where
      some_inj : some x ≡ some y → x ≡ y
      some_inj p = cc

  -- For two lists of valid addresses whose canonical texts the digest tells apart, `AddressesHash`
  -- agrees on them exactly when `AddressesEqual` holds.
  pub addresses_hash_iff :
      (a b : List Addr)
      → All IsValid a
      → All IsValid b
      → (digest (map addr_string (canonical_addresses a))
            ≡ digest (map addr_string (canonical_addresses b))
          → map addr_string (canonical_addresses a) ≡ map addr_string (canonical_addresses b))
      → (addresses_hash platform a ≡ addresses_hash platform b) ↔ (addresses_equal a b ≡ true)
  unfolding addresses_hash
  addresses_hash_iff a b va vb no_collision = (
    λ e. (addresses_equal-canonical a b).1 (
        map-string-injective (canonical_addresses a) (canonical_addresses b)
          (canonical-IsValid a va) (canonical-IsValid b vb) (no_collision e)),
    λ h. ap (λ l. digest (map addr_string l)) ((addresses_equal-canonical a b).0 h),
  )
