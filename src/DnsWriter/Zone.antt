-- ===== src/DnsWriter/Zone.antt =====
-- What an update message does to a zone, and what its servers answer: the part of RFC 2136 and of
-- RFC 1034 that the writer and the observer of dns/internal/dnswriter/dnswriter.go rely on.
use nixos_kaiba_network.Prelude.{
  ℕ, ◌≡◌, refl, ap, ◌∙◌, Bool, true, false, not, ◌&&◌, ◌||◌, some, List, [], ◌∷◌, ◌++◌, map, Bytes,
  bytes_eq, bytes_eq_refl, keep, append-nil, arith, inl, inr, Bool-cases, if◌then◌else◌,
}
use nixos_kaiba_network.Prelude.Sorted.{elem}
use nixos_kaiba_network.Net.{Addr, addr_eq, addr_order}
use nixos_kaiba_network.DnsWriter.{
  RecordType, type_a, type_aaaa, Change, remove_rrset, insert_record,
}
use nixos_kaiba_network.DnsWriter.Observer.{a_record, aaaa_record, Answer, Message}

-- A record of a zone: an address, with its type and its time to live, or one of another type.
pub data ZoneRecord : Type 0 where
  address : Bytes → RecordType → Addr → ℕ → ZoneRecord
  another : Bytes → Bytes → ZoneRecord

unfoldable pub same_type : RecordType → RecordType → Bool
same_type type_a type_a = true
same_type type_aaaa type_aaaa = true
same_type _ _ = false

unfoldable pub is_in_rrset : Bytes → RecordType → ZoneRecord → Bool
unfolding same_type
is_in_rrset name kind (address n k a ttl) = bytes_eq n name && same_type k kind
is_in_rrset name kind (another n text) = false

unfoldable pub is_record : Bytes → RecordType → Addr → ZoneRecord → Bool
unfolding same_type
is_record name kind addr (address n k a ttl) =
    (bytes_eq n name && same_type k kind) && addr_eq addr a
is_record name kind addr (another n text) = false

-- An inserted record takes the place of the same record with another time to live.
unfoldable pub apply_change : Change → List ZoneRecord → List ZoneRecord
unfolding is_in_rrset is_record
apply_change (remove_rrset name kind) zone = keep (λ r. not (is_in_rrset name kind r)) zone
apply_change (insert_record name kind addr ttl) zone =
    keep (λ r. not (is_record name kind addr r)) zone ++ address name kind addr ttl ∷ []

unfoldable pub apply_changes : List Change → List ZoneRecord → List ZoneRecord
unfolding apply_change
apply_changes [] zone = zone
apply_changes (change ∷ changes) zone = apply_changes changes (apply_change change zone)

-- The addresses of an RRset, in the order of the zone.
unfoldable pub rrset : Bytes → RecordType → List ZoneRecord → List Addr
unfolding same_type
rrset name kind [] = []
rrset name kind (address n k a ttl ∷ zone) =
    if bytes_eq n name && same_type k kind then a ∷ rrset name kind zone else rrset name kind zone
rrset name kind (another n text ∷ zone) = rrset name kind zone

unfoldable pub answer_of : Bytes → RecordType → Addr → Answer
answer_of name type_a addr = record { name = name; content = a_record (some addr) }
answer_of name type_aaaa addr = record { name = name; content = aaaa_record (some addr) }

-- An authoritative server with a copy of the zone.
unfoldable pub serve : List ZoneRecord → Bytes → RecordType → Message
unfolding answer_of rrset
serve zone name kind = record {
  truncated = false;
  rcode = 0;
  authoritative = true;
  answers = map (answer_of name kind) (rrset name kind zone);
}

-- The records that are no addresses of the name.
unfoldable pub is_elsewhere : Bytes → ZoneRecord → Bool
is_elsewhere name (address n k a ttl) = not (bytes_eq n name)
is_elsewhere name (another n text) = true

rrset-append :
    (name : Bytes) (kind : RecordType) (zone zone' : List ZoneRecord)
    → rrset name kind (zone ++ zone') ≡ rrset name kind zone ++ rrset name kind zone'
unfolding rrset
rrset-append name kind [] zone' = refl
rrset-append name kind (address n k a ttl ∷ zone) zone' =
    ground (arith, rrset-append name kind zone zone')
rrset-append name kind (another n text ∷ zone) zone' = rrset-append name kind zone zone'

same_type_sound : (a b : RecordType) → same_type a b ≡ true → a ≡ b
unfolding same_type
same_type_sound type_a type_a h = refl
same_type_sound type_aaaa type_aaaa h = refl
same_type_sound type_a type_aaaa h = cc
same_type_sound type_aaaa type_a h = cc

pub same_type_refl : (a : RecordType) → same_type a a ≡ true
unfolding same_type
same_type_refl type_a = refl
same_type_refl type_aaaa = refl

-- Removing an RRset empties it, and leaves the other one.
pub rrset-remove :
    (name : Bytes) (kind gone : RecordType) (zone : List ZoneRecord)
    → rrset name kind (apply_change (remove_rrset name gone) zone)
      ≡ (if same_type gone kind then [] else rrset name kind zone)
unfolding rrset apply_change
rrset-remove name kind gone [] = ground arith
rrset-remove name kind gone (another n text ∷ zone) = rrset-remove name kind gone zone
rrset-remove name kind gone (address n k a ttl ∷ zone) =
    elim (Bool-cases (bytes_eq n name && same_type k gone)) [
      | inl e ↦
          let same = same_type_sound k gone (ground arith) in
          elim (Bool-cases (same_type gone kind)) [
            | inl f ↦ rw (e, f) (ground (arith, rrset-remove name kind gone zone))
            | inr f ↦
                let other : same_type k kind ≡ false = rw same f in
                rw (e, f) (ground (arith, rrset-remove name kind gone zone))
          ]
      | inr e ↦ elim (Bool-cases (same_type gone kind)) [
        | inr f ↦ rw (e, f) (ground (arith, rrset-remove name kind gone zone))
        | inl f ↦
            let same = same_type_sound gone kind f in
            let other : (bytes_eq n name && same_type k kind) ≡ false = rw (← same) e in
            rw (e, other, f) (ground (arith, rrset-remove name kind gone zone))
      ]
    ]

-- Inserting an address that an RRset does not have puts it at its end, and leaves the other one.
pub rrset-insert :
    (name : Bytes) (kind new : RecordType) (addr : Addr) (ttl : ℕ) (zone : List ZoneRecord)
    → elem addr (rrset name new zone) ≡ false
    → rrset name kind (apply_change (insert_record name new addr ttl) zone)
      ≡ (if same_type new kind then rrset name kind zone ++ addr ∷ [] else rrset name kind zone)
unfolding apply_change rrset elem
rrset-insert name kind new addr ttl zone absent =
    rrset-append name kind (keep (λ r. not (is_record name new addr r)) zone) _
    ∙ rw (kept zone absent) last
  where
    kept :
        (z : List ZoneRecord)
        → elem addr (rrset name new z) ≡ false
        → keep (λ r. not (is_record name new addr r)) z ≡ z
    kept [] h = refl
    kept (another n text ∷ z) h = ap (◌∷◌ (another n text)) (kept z h)
    kept (address n k a t ∷ z) h = elim (Bool-cases (bytes_eq n name && same_type k new)) [
      | inr e ↦ rw e (ap (◌∷◌ (address n k a t)) (kept z (rw e at h)))
      | inl e ↦
          let h' : (addr_eq addr a || elem addr (rrset name new z)) ≡ false = rw e at h in
          let differs : addr_eq addr a ≡ false = ground arith in
          let rest : elem addr (rrset name new z) ≡ false = ground arith in
          rw (e, differs) (ap (◌∷◌ (address n k a t)) (kept z rest))
    ]

    last :
        rrset name kind zone ++ rrset name kind (address name new addr ttl ∷ [])
        ≡ (if same_type new kind then rrset name kind zone ++ addr ∷ [] else rrset name kind zone)
    last = elim (Bool-cases (same_type new kind)) [
      | inl e ↦ rw (e, bytes_eq_refl name) refl
      | inr e ↦ rw (e, bytes_eq_refl name) (append-nil (rrset name kind zone))
    ]
