-- ===== src/DnsWriter/Elsewhere.antt =====
-- Changes of one name leave the records of the other names as they are.
use nixos_kaiba_network.Prelude.{
  ◌≡◌, refl, ap, ◌∙◌, Bool, true, not, inl, inr, List, [], ◌∷◌, ◌++◌, Bytes, bytes_eq_refl, keep,
  arith, All, append-nil, Bool-cases,
}
use nixos_kaiba_network.Net.{addr_order}
use nixos_kaiba_network.DnsWriter.{Change, remove_rrset, insert_record}
use nixos_kaiba_network.DnsWriter.Zone.{
  ZoneRecord, address, another, apply_change, apply_changes, is_elsewhere, is_in_rrset, is_record,
}

keep-keep :
    (p q : ZoneRecord → Bool) (zone : List ZoneRecord)
    → ((r : ZoneRecord) → p r ≡ true → q r ≡ true)
    → keep p (keep q zone) ≡ keep p zone
keep-keep p q [] h = refl
keep-keep p q (r ∷ zone) h = elim (Bool-cases (p r)) [
  | inl e ↦ rw (e, h r e) (rw e (ap (◌∷◌ r) (keep-keep p q zone h)))
  | inr e ↦ elim (Bool-cases (q r)) [
    | inl f ↦ rw (e, f) (rw e (keep-keep p q zone h))
    | inr f ↦ rw (e, f) (keep-keep p q zone h)
  ]
]

keep-append :
    (p : ZoneRecord → Bool) (zone zone' : List ZoneRecord)
    → keep p (zone ++ zone') ≡ keep p zone ++ keep p zone'
keep-append p [] zone' = refl
keep-append p (r ∷ zone) zone' = ground (arith, keep-append p zone zone')

-- The name that a change is about.
abbrev pub name_of : Change → Bytes
name_of (remove_rrset name kind) = name
name_of (insert_record name kind addr ttl) = name

apply_change-elsewhere :
    (name : Bytes) (change : Change) (zone : List ZoneRecord)
    → name_of change ≡ name
    → keep (is_elsewhere name) (apply_change change zone) ≡ keep (is_elsewhere name) zone
unfolding apply_change
apply_change-elsewhere name (remove_rrset n kind) zone e =
    keep-keep (is_elsewhere name) (λ r. not (is_in_rrset n kind r)) zone outside
  where
    outside : (r : ZoneRecord) → is_elsewhere name r ≡ true → not (is_in_rrset n kind r) ≡ true
    outside (another m text) h = unfold is_in_rrset in refl
    outside (address m k a ttl) h = unfold is_in_rrset is_elsewhere in rw e (ground arith)
apply_change-elsewhere name (insert_record n kind addr ttl) zone e =
    keep-append (is_elsewhere name) (keep (λ r. not (is_record n kind addr r)) zone) _
    ∙ rw (keep-keep (is_elsewhere name) (λ r. not (is_record n kind addr r)) zone outside) (
        unfold is_elsewhere in
        rw (e, bytes_eq_refl name) (append-nil (keep (is_elsewhere name) zone)))
  where
    outside : (r : ZoneRecord) → is_elsewhere name r ≡ true → not (is_record n kind addr r) ≡ true
    outside (another m text) h = unfold is_record in refl
    outside (address m k a ttl') h = unfold is_record is_elsewhere in rw e (ground arith)

pub apply_changes-elsewhere :
    (name : Bytes) (changes : List Change) (zone : List ZoneRecord)
    → All (λ change. name_of change ≡ name) changes
    → keep (is_elsewhere name) (apply_changes changes zone) ≡ keep (is_elsewhere name) zone
unfolding apply_changes
apply_changes-elsewhere name [] zone h = refl
apply_changes-elsewhere name (change ∷ changes) zone h =
    apply_changes-elsewhere name changes (apply_change change zone) h.1
    ∙ apply_change-elsewhere name change zone h.0
