-- ===== src/Identity/Decision/Closed.antt =====
-- Which wire objects are decisions.
use nixos_kaiba_network.Prelude.{
  ℕ, suc, ◌≡◌, refl, true, false, not, ◌&&◌, ◌||◌, some, List, [], ◌∷◌, Bytes, bytes_eq,
  bytes_eq_sound, any, All, arith, inl, inr, ◌⊎◌, Bool-cases, if◌then◌else◌, ok, >>=-eq-ok,
}
use nixos_kaiba_network.Identity.Decision.{
  decision_fields, Decision, Content, string_value, null_value, other_value, Member, Document,
  is_listed, or_not_text, mark_members, read_decision, decode_decision,
}

-- How many members of an object have this key.
pub occurrences : Bytes → List Member → ℕ
occurrences key [] = 0
occurrences key (m ∷ members) =
    if bytes_eq m.key key then suc (occurrences key members) else occurrences key members

abbrev pub IsTextOrNull : Member → Type 0
IsTextOrNull m = ((text : Bytes) × (m.content ≡ string_value text)) ⊎ (m.content ≡ null_value)

text_or_null :
    (content : Content) (text : Bytes)
    → or_not_text content ≡ ok text
    → ((t : Bytes) × (content ≡ string_value t)) ⊎ (content ≡ null_value)
unfolding or_not_text
text_or_null (string_value t) text h = inl (t, refl)
text_or_null null_value text h = inr refl
text_or_null other_value text h = absurd (cc)

is_listed-cons :
    (key k : Bytes) (keys : List Bytes)
    → is_listed key (k ∷ keys) ≡ (bytes_eq k key || is_listed key keys)
unfolding is_listed
is_listed-cons key k keys = refl

occurrences-cons :
    (key : Bytes) (m : Member) (members : List Member)
    → occurrences key (m ∷ members)
      ≡ (if bytes_eq m.key key then suc (occurrences key members) else occurrences key members)
unfolding occurrences
occurrences-cons key m members = refl

-- A key is new in the marks exactly if it occurs, and then it occurs once and is known.
abbrev Marked : List Bytes → List Member → List Bytes → Bytes → Type 0
Marked seen members marked key =
    (occurrences key members ≡ (if is_listed key marked && not (is_listed key seen) then 1 else 0))
    × ((is_listed key seen && not (is_listed key marked)) ≡ false)
    × ((is_listed key marked && (not (is_listed key seen) && not (is_listed key decision_fields)))
        ≡ false)

mark_first :
    (seen : List Bytes) (m : Member) (members : List Member) (marked : List Bytes) (key : Bytes)
    → (not (is_listed m.key decision_fields) || is_listed m.key seen) ≡ false
    → Marked (m.key ∷ seen) members marked key
    → Marked seen (m ∷ members) marked key
mark_first seen m members marked key fresh (o, k, f) =
    let o' = rw (is_listed-cons key m.key seen) at o in
    let k' = rw (is_listed-cons key m.key seen) at k in
    let f' = rw (is_listed-cons key m.key seen) at f in
    elim (Bool-cases (bytes_eq m.key key)) [
      | inr e ↦ (ground (arith, occurrences-cons key m members), ground arith, ground arith)
      | inl e ↦
          let same = bytes_eq_sound m.key key e in
          let fresh' : (not (is_listed key decision_fields) || is_listed key seen) ≡ false =
            rw (← same) fresh in
          (ground (arith, occurrences-cons key m members), ground arith, ground arith)
    ]

mark_members-Marked :
    (seen : List Bytes) (members : List Member) (marked : List Bytes)
    → mark_members seen members ≡ ok marked
    → ((key : Bytes) → Marked seen members marked key) × All IsTextOrNull members
unfolding mark_members
mark_members-Marked seen [] marked h =
    let same : seen ≡ marked = ground arith in
    (λ key. rw (← same) (unfold occurrences in (ground arith, ground arith, ground arith)), tt)
mark_members-Marked seen (m ∷ members) marked h =
    elim (Bool-cases (not (is_listed m.key decision_fields) || is_listed m.key seen)) [
      | inl bad ↦ absurd (let h' = rw bad at h in cc)
      | inr fresh ↦
          let h' = rw fresh at h in
          let (text, t, h'') = >>=-eq-ok (or_not_text m.content) _ h' in
          let (later, texts) = mark_members-Marked (m.key ∷ seen) members marked h'' in
          (
            λ key. mark_first seen m members marked key fresh (later key),
            (text_or_null m.content text t, texts),
          )
    ]

all_seen :
    (key : Bytes) (fields seen : List Bytes)
    → any (λ field. not (is_listed field seen)) fields ≡ false
    → is_listed key fields ≡ true
    → is_listed key seen ≡ true
all_seen key [] seen h l = absurd (unfold is_listed in cc)
all_seen key (field ∷ fields) seen h l =
    let l' = rw (is_listed-cons key field fields) at l in
    elim (Bool-cases (bytes_eq field key)) [
      | inl e ↦ rw (← bytes_eq_sound field key e) (ground arith)
      | inr e ↦ all_seen key fields seen (ground arith) (ground arith)
    ]

counted :
    (n : ℕ) (key : Bytes) (marked : List Bytes)
    → n ≡ (if is_listed key marked && not (is_listed key []) then 1 else 0)
    → (is_listed key marked && (not (is_listed key []) && not (is_listed key decision_fields)))
      ≡ false
    → (is_listed key decision_fields ≡ true → is_listed key marked ≡ true)
    → n ≡ (if is_listed key decision_fields then 1 else 0)
counted n key marked o f seen =
    let none_here : is_listed key [] ≡ false = unfold is_listed in refl in
    elim (Bool-cases (is_listed key decision_fields)) [
      | inl e ↦ let m = seen e in rw e (ground arith)
      | inr e ↦ rw e (ground arith)
    ]

-- If a body decodes as a decision, then it holds one object that is whole and closed and has
-- nothing after it; each of the eleven fields occurs in it exactly once, with a text or null as its
-- value; no other key occurs in it; and the decision has the texts of the fields, with an empty text
-- for null.
pub decode_decision-closed :
    (document : Document) (decision : Decision)
    → decode_decision (some document) ≡ ok decision
    → ((key : Bytes)
        → occurrences key document.members ≡ (if is_listed key decision_fields then 1 else 0))
      × All IsTextOrNull document.members
      × (document.broken ≡ false)
      × (document.closed ≡ true)
      × (document.trailing ≡ false)
      × (decision ≡ read_decision document.members)
unfolding decode_decision
decode_decision-closed document decision h =
    let (marked, m, h') = >>=-eq-ok (mark_members [] document.members) _ h in
    let (marks, texts) = mark_members-Marked [] document.members marked m in
    elim (Bool-cases (document.broken || not document.closed)) [
      | inl bad ↦ absurd (let e = rw bad at h' in cc)
      | inr whole ↦
          let e = rw whole at h' in
          elim (Bool-cases (any (λ field. not (is_listed field marked)) decision_fields)) [
            | inl bad ↦ absurd (let e' = rw bad at e in cc)
            | inr complete ↦
                let e' = rw complete at e in
                elim (Bool-cases document.trailing) [
                  | inl bad ↦ absurd (let e'' = rw bad at e' in cc)
                  | inr single ↦
                      let e'' = rw single at e' in
                      (
                        λ key.
                            let (o, k, f) = marks key in
                            counted (occurrences key document.members) key marked o f
                              (all_seen key decision_fields marked complete),
                        texts,
                        ground arith,
                        ground arith,
                        single,
                        ground arith,
                      )
                ]
          ]
    ]
