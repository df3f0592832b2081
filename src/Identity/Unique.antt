-- ===== src/Identity/Unique.antt =====
-- A certificate names a device only if one of its URLs does, and no other; devices of one policy
-- share no hostname.
use mathlib.Core.List.{append_cancel_left, append_cancel_right}
use nixos_kaiba_network.Prelude.{
  ◌≡◌, refl, sym, ap, ◌∙◌, Bool, true, false, Option, none, some, List, [], ◌∷◌, ◌++◌, All, arith,
  Bytes, codes, is_empty, Bool-cases, inl, inr, if◌then◌else◌, Result, ok, err, ◌>>=◌, ◌>>◌,
  refuse_if,
}
use nixos_kaiba_network.Identity.{
  IdentityError, no_identity, ambiguous_identity, Device, Uri, SpiffePolicy, is_device_id,
  device_path_id, trim_dot, is_spiffe_of, candidate_id, match_ids, candidate_ids, resolve,
}

-- The IDs of all candidates.
unfoldable pub named_ids : List (Option Bytes) → List Bytes
named_ids [] = []
named_ids (none ∷ rest) = named_ids rest
named_ids (some id ∷ rest) = id ∷ named_ids rest

-- What a certificate with these IDs stands for.
unfoldable pub only_id : List Bytes → Result IdentityError Bytes
only_id [] = err no_identity
only_id (id ∷ []) = ok id
only_id (id ∷ other ∷ more) = err ambiguous_identity

is_blank : Option Bytes → Bool
is_blank none = false
is_blank (some id) = is_empty id

device_id_not_empty : (id : Bytes) → is_device_id id ≡ true → is_empty id ≡ false
unfolding is_device_id
device_id_not_empty [] h = cc
device_id_not_empty (c ∷ s) h = refl

candidate_id-not_blank :
    (trust_domain : Bytes) (u : Option Uri) → is_blank (candidate_id trust_domain u) ≡ false
unfolding is_blank candidate_id
candidate_id-not_blank trust_domain none = refl
candidate_id-not_blank trust_domain (some u) = elim (Bool-cases (is_spiffe_of trust_domain u)) [
  | inr e ↦ rw e refl
  | inl e ↦ rw e (of_path (device_path_id u.escaped_path))
]
  where
    of_path :
        (path : Option Bytes)
        → is_blank (elim path [ none ↦ none | some id ↦ if is_device_id id then some id else none ])
          ≡ false
    of_path none = refl
    of_path (some id) = elim (Bool-cases (is_device_id id)) [
      | inl e ↦ rw e (device_id_not_empty id e)
      | inr e ↦ rw e refl
    ]

candidate_ids-not_blank :
    (trust_domain : Bytes) (uris : List (Option Uri))
    → All (λ o. is_blank o ≡ false) (candidate_ids trust_domain uris)
unfolding candidate_ids
candidate_ids-not_blank trust_domain [] = tt
candidate_ids-not_blank trust_domain (u ∷ uris) =
    (candidate_id-not_blank trust_domain u, candidate_ids-not_blank trust_domain uris)

-- Once an ID is matched, any other is one too many.
match_ids-matched :
    (matched : Bytes) (candidates : List (Option Bytes))
    → is_empty matched ≡ false
    → All (λ o. is_blank o ≡ false) candidates
    → match_ids matched candidates ≡ only_id (matched ∷ named_ids candidates)
unfolding match_ids only_id named_ids is_blank
match_ids-matched matched [] h a = refl
match_ids-matched matched (none ∷ rest) h a = match_ids-matched matched rest h a.1
match_ids-matched matched (some id ∷ rest) h a = rw h refl

blank_is_no_identity : Result IdentityError Bytes → Result IdentityError Bytes
blank_is_no_identity (err e) = err e
blank_is_no_identity (ok id) = if is_empty id then err no_identity else ok id

only_id-not_blank :
    (id : Bytes) (more : List Bytes)
    → is_empty id ≡ false
    → blank_is_no_identity (only_id (id ∷ more)) ≡ only_id (id ∷ more)
unfolding only_id blank_is_no_identity
only_id-not_blank id [] h = rw h refl
only_id-not_blank id (other ∷ more) h = refl

match_ids_lem :
    (candidates : List (Option Bytes))
    → All (λ o. is_blank o ≡ false) candidates
    → blank_is_no_identity (match_ids [] candidates) ≡ only_id (named_ids candidates)
unfolding match_ids named_ids is_blank
match_ids_lem [] a = unfold blank_is_no_identity only_id in refl
match_ids_lem (none ∷ rest) a = match_ids_lem rest a.1
match_ids_lem (some id ∷ rest) a =
    ap blank_is_no_identity (match_ids-matched id rest a.0 a.1)
    ∙ only_id-not_blank id (named_ids rest) a.0

module _ (to_lower : Bytes → Bytes) (policy : SpiffePolicy) where
  abbrev pub hostname_of : Bytes → Bytes
  hostname_of id = codes "pi-" ++ id ++ codes "." ++ trim_dot (to_lower policy.zone)

  -- The device of an ID under the policy.
  unfoldable pub device_of : Result IdentityError Bytes → Result IdentityError Device
  device_of (err e) = err e
  device_of (ok id) = ok (record { id = id; hostname = hostname_of id })

  resolve-device_of :
      (matched : Result IdentityError Bytes)
      → (matched >>= λ id.
          refuse_if (is_empty id) no_identity >> ok (record { id = id; hostname = hostname_of id }))
        ≡ device_of (blank_is_no_identity matched)
  unfolding device_of blank_is_no_identity
  resolve-device_of (err e) = refl
  resolve-device_of (ok id) = ground arith

  -- A certificate resolves by the device IDs that its URLs of the policy's trust domain name: to
  -- the device of the only one, to no identity if there is none, and to an ambiguous identity if
  -- there are two or more, equal or not.
  pub resolve_lem :
      (uris : List (Option Uri))
      → resolve to_lower policy (some uris)
        ≡ device_of
            (only_id (named_ids (candidate_ids (trim_dot (to_lower policy.trust_domain)) uris)))
  unfolding resolve
  resolve_lem uris =
      let domain = trim_dot (to_lower policy.trust_domain) in
      resolve-device_of (match_ids [] (candidate_ids domain uris))
      ∙ ap device_of
          (match_ids_lem (candidate_ids domain uris) (candidate_ids-not_blank domain uris))

  pub resolve-hostname :
      (certificate : Option (List (Option Uri))) (device : Device)
      → resolve to_lower policy certificate ≡ ok device
      → device.hostname ≡ hostname_of device.id
  unfolding resolve device_of
  resolve-hostname none device h = cc
  resolve-hostname (some uris) device h =
      of_id (only_id (named_ids (candidate_ids (trim_dot (to_lower policy.trust_domain)) uris)))
        (sym (resolve_lem uris) ∙ h)
    where
      ok_inj : {x y : Device} → Path (Result IdentityError Device) (ok x) (ok y) → x ≡ y
      ok_inj p = cc

      of_id :
          (id : Result IdentityError Bytes)
          → device_of id ≡ ok device
          → device.hostname ≡ hostname_of device.id
      of_id (err e) p = cc
      of_id (ok id) p =
          let same : record { id = id; hostname = hostname_of id } ≡ device = ok_inj p in
          ap (λ (d : Device). d.hostname) (sym same)
          ∙ ap hostname_of (ap (λ (d : Device). d.id) same)

  pub hostname_of-injective : (id other : Bytes) → hostname_of id ≡ hostname_of other → id ≡ other
  hostname_of-injective id other hosts = append_cancel_right id other (codes ".") (
      append_cancel_right (id ++ codes ".") (other ++ codes ".") (trim_dot (to_lower policy.zone))
        (append_cancel_left (codes "pi-") _ _ hosts))

  -- Under one policy, two certificates whose devices have one hostname name one device, so that the
  -- unique hostname of the intents table never stands between two devices.
  pub resolve-injective :
      (certificate other : Option (List (Option Uri))) (device device' : Device)
      → resolve to_lower policy certificate ≡ ok device
      → resolve to_lower policy other ≡ ok device'
      → device.hostname ≡ device'.hostname
      → device ≡ device'
  resolve-injective certificate other device device' h h' same =
      let hosts =
        sym (resolve-hostname certificate device h) ∙ same ∙ resolve-hostname other device' h' in
      let ids = hostname_of-injective device.id device'.id hosts in
      λ i. record { id = ids i; hostname = same i }
