-- ===== src/Identity/Decision.antt =====
-- dns/internal/identity/authorization.go: the wire object of a decision, and its timestamps.
pub mod Closed
use nixos_kaiba_network.Prelude.{
  ℕ, ◌-◌, Bool, true, false, not, ◌&&◌, ◌||◌, Option, none, some, List, [], ◌∷◌, Bytes, codes,
  bytes_eq, leb, ltb, any, ◌==◌, is_empty, if◌then◌else◌, Result, ok, err, ◌>>=◌, ◌>>◌, refuse_if,
}
use nixos_kaiba_network.Prelude.Decimal.{is_digit}

-- The fields of the wire object.
abbrev pub decision_fields : List Bytes
decision_fields =
    codes "contract"
    ∷ codes "contract_version"
    ∷ codes "request_id"
    ∷ codes "spiffe_id"
    ∷ codes "logical_device_id"
    ∷ codes "instance_id"
    ∷ codes "dns_device_id"
    ∷ codes "hostname"
    ∷ codes "permission"
    ∷ codes "checked_at"
    ∷ codes "expires_at"
    ∷ []

pub record Decision : Type 0 where
  pub contract : Bytes
  pub contract_version : Bytes
  pub request_id : Bytes
  pub spiffe_id : Bytes
  pub logical_device_id : Bytes
  pub instance_id : Bytes
  pub dns_device_id : Bytes
  pub hostname : Bytes
  pub permission : Bytes
  pub checked_at : Bytes
  pub expires_at : Bytes

-- A JSON value: a text, null, or one that does not decode as a text.
pub data Content : Type 0 where
  string_value : Bytes → Content
  null_value other_value : Content

-- A member of a JSON object.
pub record Member : Type 0 where
  pub key : Bytes
  pub content : Content

-- What the JSON decoder finds in a body: no object, or one up to an error in a key, if there is one,
-- whether it is closed, and whether more follows.
pub record Document : Type 0 where
  pub members : List Member
  pub broken : Bool
  pub closed : Bool
  pub trailing : Bool

pub data DecisionError : Type 0 where
  expected_object malformed_object unknown_or_duplicate not_a_text missing_field : DecisionError
  trailing_text : DecisionError

unfoldable pub is_listed : Bytes → List Bytes → Bool
is_listed key keys = any (λ k. bytes_eq k key) keys

-- `Decode` into a string: null leaves the empty text there, without an error.
unfoldable pub or_not_text : Content → Result DecisionError Bytes
or_not_text (string_value text) = ok text
or_not_text null_value = ok []
or_not_text other_value = err not_a_text

-- The loop over the members; `seen` holds the fields whose mark is set, and the result those after.
unfoldable pub mark_members : List Bytes → List Member → Result DecisionError (List Bytes)
unfolding is_listed or_not_text
mark_members seen [] = ok seen
mark_members seen (m ∷ members) = do
  refuse_if (not (is_listed m.key decision_fields) || is_listed m.key seen) unknown_or_duplicate
  text ← or_not_text m.content
  mark_members (m.key ∷ seen) members

-- What the last `Unmarshal` leaves in a field; null leaves it empty.
unfoldable pub text_in : Content → Bytes
text_in (string_value text) = text
text_in null_value = []
text_in other_value = []

-- The field of the last `Unmarshal`, which finds each key once.
unfoldable pub field_of : List Member → Bytes → Bytes
unfolding text_in
field_of [] key = []
field_of (m ∷ members) key = if bytes_eq m.key key then text_in m.content else field_of members key

unfoldable pub read_decision : List Member → Decision
unfolding field_of
read_decision members = record {
  contract = field_of members (codes "contract");
  contract_version = field_of members (codes "contract_version");
  request_id = field_of members (codes "request_id");
  spiffe_id = field_of members (codes "spiffe_id");
  logical_device_id = field_of members (codes "logical_device_id");
  instance_id = field_of members (codes "instance_id");
  dns_device_id = field_of members (codes "dns_device_id");
  hostname = field_of members (codes "hostname");
  permission = field_of members (codes "permission");
  checked_at = field_of members (codes "checked_at");
  expires_at = field_of members (codes "expires_at");
}

unfoldable pub decode_decision : Option Document → Result DecisionError Decision
unfolding mark_members read_decision is_listed
decode_decision none = err expected_object
decode_decision (some document) = do
  seen ← mark_members [] document.members
  refuse_if (document.broken || not document.closed) malformed_object
  refuse_if (any (λ field. not (is_listed field seen)) decision_fields) missing_field
  refuse_if document.trailing trailing_text
  ok (read_decision document.members)

-- A place of a timestamp: a digit, a digit up to five, or a fixed byte.
pub data Place : Type 0 where
  digit sixth : Place
  byte : ℕ → Place

unfoldable pub fits_place : Place → ℕ → Bool
fits_place digit c = is_digit c
fits_place sixth c = leb b'0' c && leb c b'5'
fits_place (byte b) c = c == b

-- The text after the places.
unfoldable pub after_places : List Place → Bytes → Option Bytes
unfolding fits_place
after_places [] s = some s
after_places (p ∷ places) [] = none
after_places (p ∷ places) (c ∷ s) = if fits_place p c then after_places places s else none

-- \d{4}-\d{2}-\d{2}T\d{2}:[0-5]\d:[0-5]\d
abbrev pub timestamp_places : List Place
timestamp_places =
    digit
    ∷ digit
    ∷ digit
    ∷ digit
    ∷ byte b'-'
    ∷ digit
    ∷ digit
    ∷ byte b'-'
    ∷ digit
    ∷ digit
    ∷ byte b'T'
    ∷ digit
    ∷ digit
    ∷ byte b':'
    ∷ sixth
    ∷ digit
    ∷ byte b':'
    ∷ sixth
    ∷ digit
    ∷ []

-- \d{1,6}Z$, with the digits that may still follow.
unfoldable pub ends_fraction : ℕ → Bytes → Bool
ends_fraction n [] = false
ends_fraction n (c ∷ []) = leb n 5 && c == b'Z'
ends_fraction n (c ∷ d ∷ s) = ltb 0 n && is_digit c && ends_fraction (n - 1) (d ∷ s)

-- (?:\.\d{1,6})?Z$
unfoldable pub ends_timestamp : Bytes → Bool
unfolding ends_fraction
ends_timestamp [] = false
ends_timestamp (c ∷ s) = (c == b'Z' && is_empty s) || (c == b'.' && ends_fraction 6 s)

ends_rest : Option Bytes → Bool
unfolding ends_timestamp
ends_rest none = false
ends_rest (some s) = ends_timestamp s

unfoldable pub is_decision_timestamp : Bytes → Bool
unfolding after_places ends_rest
is_decision_timestamp s = ends_rest (after_places timestamp_places s)
