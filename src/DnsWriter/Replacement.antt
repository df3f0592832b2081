-- ===== src/DnsWriter/Replacement.antt =====
-- What the update of the writer makes of the zone of its server.
use nixos_kaiba_network.Prelude.{
  ℕ, ◌≡◌, refl, sym, ap, subst, ◌∙◌, Bool, true, false, not, ◌||◌, ◌⊎◌, inl, inr, List, [], ◌∷◌,
  ◌++◌, Bytes, bytes_eq, is_empty, keep, arith, All, append-nil, append_assoc, Bool-cases,
  if◌then◌else◌, Result, ok, >>=-eq-ok, refuse_if-eq-ok,
}
use nixos_kaiba_network.Prelude.Sorted.{elem, eq_sound, eq_refl, elem-append, Distinct}
use nixos_kaiba_network.Net.{Addr, invalid, v4, v6, is4, is6, unmap, addr_eq, addr_order}
use nixos_kaiba_network.Model.{Platform}
use nixos_kaiba_network.DnsWriter.{
  Dns, RecordType, type_a, type_aaaa, Change, remove_rrset, insert_record, Rfc2136, UpdateCall,
  WriteError, as_slice, insert_addresses, update_call,
}
use nixos_kaiba_network.DnsWriter.Elsewhere.{name_of, apply_changes-elsewhere}
use nixos_kaiba_network.DnsWriter.Zone.{
  ZoneRecord, same_type, apply_change, apply_changes, rrset, rrset-remove, rrset-insert,
  is_elsewhere,
}

unfoldable pub is_kind : RecordType → Addr → Bool
is_kind type_a addr = is4 addr
is_kind type_aaaa addr = is6 addr

is_kind-same_type :
    (k kind : RecordType) (a : Addr) → is_kind k a ≡ true → is_kind kind a ≡ same_type k kind
unfolding is_kind same_type is4 is6
is_kind-same_type type_a type_a (v4 n) h = refl
is_kind-same_type type_a type_aaaa (v4 n) h = refl
is_kind-same_type type_aaaa type_a (v6 n z) h = refl
is_kind-same_type type_aaaa type_aaaa (v6 n z) h = refl
is_kind-same_type type_a kind invalid h = cc
is_kind-same_type type_a kind (v6 n z) h = cc
is_kind-same_type type_aaaa kind invalid h = cc
is_kind-same_type type_aaaa kind (v4 n) h = cc

is4-as_slice : (a : Addr) → is4 a ≡ true → is4 (as_slice a) ≡ true
unfolding is4 as_slice
is4-as_slice invalid h = h
is4-as_slice (v4 n) h = h
is4-as_slice (v6 n z) h = h

is6-as_slice : (a : Addr) → is6 a ≡ true → is6 (as_slice a) ≡ true
unfolding is6 as_slice
is6-as_slice invalid h = h
is6-as_slice (v4 n) h = h
is6-as_slice (v6 n z) h = h

-- An address that the writer sends as it is: not IPv4-mapped, and without a zone.
abbrev pub IsSent : Addr → Type 0
IsSent a = as_slice (unmap a) ≡ a

-- The first insertion of a list of changes, and the rest.
insert_first :
    (name : Bytes) (ttl : ℕ) (a : Addr) (addresses : List Addr) (changes : List Change)
    → insert_addresses name ttl (a ∷ addresses) ≡ ok changes
    → (k : RecordType) × (rest : List Change) × (insert_addresses name ttl addresses ≡ ok rest)
      × (changes ≡ insert_record name k (as_slice (unmap a)) ttl ∷ rest)
      × (is_kind k (as_slice (unmap a)) ≡ true)
unfolding insert_addresses is_kind as_slice
insert_first name ttl a addresses changes h = elim (Bool-cases (is4 (unmap a))) [
  | inl e ↦
      let (rest, r, h') = >>=-eq-ok (insert_addresses name ttl addresses) _ (rw e at h) in
      (type_a, rest, r, ground arith, is4-as_slice (unmap a) e)
  | inr e ↦ elim (Bool-cases (is6 (unmap a))) [
    | inr f ↦ absurd (let h' = rw (e, f) at h in cc)
    | inl f ↦
        let (rest, r, h') = >>=-eq-ok (insert_addresses name ttl addresses) _ (rw (e, f) at h) in
        (type_aaaa, rest, r, ground arith, is6-as_slice (unmap a) f)
  ]
]

-- No address of the list is in the RRsets of the name.
abbrev Fresh : Bytes → List ZoneRecord → List Addr → Type 0
Fresh name zone addresses =
    (kind : RecordType) → All (λ a. elem a (rrset name kind zone) ≡ false) addresses

still_fresh :
    (a : Addr) (had rest : List Addr)
    → elem a rest ≡ false
    → All (λ b. elem b had ≡ false) rest
    → All (λ b. elem b (had ++ a ∷ []) ≡ false) rest
unfolding elem
still_fresh a had [] n h = tt
still_fresh a had (b ∷ rest) n h = (
  rw (elem-append b had (a ∷ []), h.0) (differ (Bool-cases (addr_eq b a))),
  still_fresh a had rest (ground arith) h.1,
)
  where
    differ : (addr_eq b a ≡ true) ⊎ (addr_eq b a ≡ false) → (addr_eq b a || false) ≡ false
    differ (inr e) = rw e refl
    differ (inl e) = absurd (let same = eq_sound b a e in ground (arith, eq_refl a, same))

fresh_after :
    (name : Bytes) (k kind : RecordType) (a : Addr) (addresses : List Addr)
    (zone zone' : List ZoneRecord)
    → rrset name kind zone'
      ≡ (if same_type k kind then rrset name kind zone ++ a ∷ [] else rrset name kind zone)
    → elem a addresses ≡ false
    → All (λ b. elem b (rrset name kind zone) ≡ false) addresses
    → All (λ b. elem b (rrset name kind zone') ≡ false) addresses
fresh_after name k kind a addresses zone zone' e n h = elim (Bool-cases (same_type k kind)) [
  | inl s ↦ rw (e, s) (still_fresh a (rrset name kind zone) addresses n h)
  | inr s ↦ rw (e, s) h
]

joined :
    (here kept : Bool) (a : Addr) (had now rest : List Addr)
    → kept ≡ here
    → now ≡ (if here then had ++ a ∷ [] else had)
    → now ++ rest ≡ had ++ (if kept then a ∷ rest else rest)
joined true kept a had now rest k e = rw (k, e) (append_assoc had (a ∷ []) rest)
joined false kept a had now rest k e = rw (k, e) refl

inserts-rrset :
    (name : Bytes) (ttl : ℕ) (addresses : List Addr) (changes : List Change) (kind : RecordType)
    (zone : List ZoneRecord)
    → insert_addresses name ttl addresses ≡ ok changes
    → All IsSent addresses
    → Distinct addresses
    → Fresh name zone addresses
    → rrset name kind (apply_changes changes zone)
      ≡ rrset name kind zone ++ keep (is_kind kind) addresses
unfolding apply_changes
inserts-rrset name ttl [] changes kind zone h p d f =
    let none_left : [] ≡ changes = unfold insert_addresses in ground arith in
    rw (← none_left) (sym (append-nil (rrset name kind zone)))
inserts-rrset name ttl (a ∷ addresses) changes kind zone h p d f =
    let (k, rest, r, split, is_k) = insert_first name ttl a addresses changes h in
    let change = insert_record name k a ttl in
    let whole : changes ≡ change ∷ rest =
      split ∙ ap (λ (b : Addr). insert_record name k b ttl ∷ rest) p.0 in
    let zone' = apply_change change zone in
    let one = λ (kind' : RecordType). rrset-insert name kind' k a ttl zone (f k).0 in
    let fresh = λ (kind' : RecordType).
      fresh_after name k kind' a addresses zone zone' (one kind') d.0 (f kind').1 in
    let later = inserts-rrset name ttl addresses rest kind zone' r p.1 d.1 fresh in
    let kinds : is_kind kind a ≡ same_type k kind =
      is_kind-same_type k kind a (subst (λ (b : Addr). is_kind k b ≡ true) p.0 is_k) in
    rw whole (
      later
      ∙ joined (same_type k kind) (is_kind kind a) a (rrset name kind zone) _
          (keep (is_kind kind) addresses) kinds (one kind))

inserts-name :
    (name : Bytes) (ttl : ℕ) (addresses : List Addr) (changes : List Change)
    → insert_addresses name ttl addresses ≡ ok changes
    → All (λ change. name_of change ≡ name) changes
inserts-name name ttl [] changes h =
    let none_left : [] ≡ changes = unfold insert_addresses in ground arith in rw (← none_left) tt
inserts-name name ttl (a ∷ addresses) changes h =
    let (k, rest, r, split, is_k) = insert_first name ttl a addresses changes h in
    rw split (refl, inserts-name name ttl addresses rest r)

-- Both RRsets are empty once they are removed.
emptied :
    (name : Bytes) (kind : RecordType) (zone : List ZoneRecord)
    → rrset name kind
        (apply_change (remove_rrset name type_aaaa) (apply_change (remove_rrset name type_a) zone))
      ≡ []
unfolding same_type
emptied name type_a zone =
    rrset-remove name type_a type_aaaa (apply_change (remove_rrset name type_a) zone)
    ∙ rrset-remove name type_a type_a zone
emptied name type_aaaa zone =
    rrset-remove name type_aaaa type_aaaa (apply_change (remove_rrset name type_a) zone)

none_in : (addresses had : List Addr) → had ≡ [] → All (λ a. elem a had ≡ false) addresses
unfolding elem
none_in [] had e = tt
none_in (a ∷ addresses) had e = (rw e refl, none_in addresses had e)

replaced :
    (name : Bytes) (ttl : ℕ) (addresses : List Addr) (inserts : List Change) (kind : RecordType)
    (zone : List ZoneRecord)
    → insert_addresses name ttl addresses ≡ ok inserts
    → All IsSent addresses
    → Distinct addresses
    → rrset name kind
        (apply_changes (remove_rrset name type_a ∷ remove_rrset name type_aaaa ∷ inserts) zone)
      ≡ keep (is_kind kind) addresses
unfolding apply_changes
replaced name ttl addresses inserts kind zone i plain distinct =
    inserts-rrset name ttl addresses inserts kind _ i plain distinct
      (λ kind'. none_in addresses _ (emptied name kind' zone))
    ∙ rw (emptied name kind zone) refl

ok_changes :
    (c d : UpdateCall)
    → Path (Result WriteError UpdateCall) (ok c) (ok d)
    → c.message.changes ≡ d.message.changes
ok_changes c d h =
    let same : c ≡ d = ground arith in ap (λ (x : UpdateCall). x.message.changes) same

module _ (dns : Dns) (platform : Platform) where
  -- The changes of an update call.
  update_call_changes :
      (w : Rfc2136) (hostname : Bytes) (addresses : List Addr) (ttl : ℕ) (call : UpdateCall)
      → update_call dns platform w hostname addresses ttl ≡ ok call
      → let name = dns.fqdn (dns.to_lower hostname) in
        (inserts : List Change) × (insert_addresses name ttl addresses ≡ ok inserts)
        × (call.message.changes ≡ remove_rrset name type_a ∷ remove_rrset name type_aaaa ∷ inserts)
  unfolding update_call
  update_call_changes w hostname addresses ttl call h =
      let zone = dns.fqdn (dns.to_lower w.zone) in
      let name = dns.fqdn (dns.to_lower hostname) in
      let (inside, h1) =
        refuse_if-eq-ok (not (dns.is_sub_domain zone name) || bytes_eq name zone) _ _ h in
      let (given, h2) =
        refuse_if-eq-ok (is_empty w.server || is_empty w.tsig_name || is_empty w.tsig_secret) _ _
          h1 in
      let (inserts, i, h3) = >>=-eq-ok (insert_addresses name ttl addresses) _ h2 in
      (inserts, i, sym (ok_changes _ call h3))

  -- After the update that the writer sends for distinct addresses that are not mapped, the RRsets of
  -- the hostname hold these addresses, each under its type, and nothing else; and every other record
  -- of the zone is as before.
  pub update_call-rrset :
      (w : Rfc2136) (hostname : Bytes) (addresses : List Addr) (ttl : ℕ) (call : UpdateCall)
      (zone : List ZoneRecord)
      → update_call dns platform w hostname addresses ttl ≡ ok call
      → All IsSent addresses
      → Distinct addresses
      → let name = dns.fqdn (dns.to_lower hostname) in
        let after = apply_changes call.message.changes zone in
        ((kind : RecordType) → rrset name kind after ≡ keep (is_kind kind) addresses)
        × (keep (is_elsewhere name) after ≡ keep (is_elsewhere name) zone)
  update_call-rrset w hostname addresses ttl call zone h plain distinct =
      let name = dns.fqdn (dns.to_lower hostname) in
      let (inserts, i, split) = update_call_changes w hostname addresses ttl call h in
      (
        λ kind. rw split (replaced name ttl addresses inserts kind zone i plain distinct),
        rw split (
            apply_changes-elsewhere name
              (remove_rrset name type_a ∷ remove_rrset name type_aaaa ∷ inserts) zone
              (refl, (refl, inserts-name name ttl addresses inserts i))),
      )
