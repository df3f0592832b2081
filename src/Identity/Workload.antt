-- ===== src/Identity/Workload.antt =====
-- dns/internal/identity/workload.go: the identity that a workload certificate carries.
use nixos_kaiba_network.Prelude.{
  ℕ, Bool, true, false, not, ◌&&◌, ◌||◌, Option, none, some, List, [], ◌∷◌, Bytes, codes, bytes_eq,
  length, leb, ltb, any, ◌==◌, is_empty, if◌then◌else◌, Result, ok, err, ◌>>=◌, ◌>>◌, refuse_if,
}
use nixos_kaiba_network.Model.{Time}
use nixos_kaiba_network.Identity.{Device, AuthenticationError, denied, unauthenticated}

-- [a-z0-9]
unfoldable pub is_lower_alphanumeric : ℕ → Bool
is_lower_alphanumeric c = (leb b'a' c && leb c b'z') || (leb b'0' c && leb c b'9')

-- [a-z0-9_-]
unfoldable pub is_segment_character : ℕ → Bool
unfolding is_lower_alphanumeric
is_segment_character c = is_lower_alphanumeric c || c == b'_' || c == b'-'

-- [a-z0-9-]
unfoldable pub is_label_character : ℕ → Bool
unfolding is_lower_alphanumeric
is_label_character c = is_lower_alphanumeric c || c == b'-'

-- ^[a-z0-9][a-z0-9_-]{0,63}$
unfoldable pub is_workload_segment : Bytes → Bool
unfolding is_segment_character is_lower_alphanumeric
is_workload_segment [] = false
is_workload_segment (c ∷ rest) =
    is_lower_alphanumeric c
    && leb (length rest) 63
    && not (any (λ d. not (is_segment_character d)) rest)

-- ([a-z0-9-]*[a-z0-9])?$
unfoldable pub ends_label : Bytes → Bool
unfolding is_lower_alphanumeric is_label_character
ends_label [] = true
ends_label (c ∷ []) = is_lower_alphanumeric c
ends_label (c ∷ d ∷ rest) = is_label_character c && ends_label (d ∷ rest)

-- ^[a-z0-9]([a-z0-9-]{0,61}[a-z0-9])?$
unfoldable pub is_domain_label : Bytes → Bool
unfolding is_lower_alphanumeric ends_label
is_domain_label [] = false
is_domain_label (c ∷ rest) = is_lower_alphanumeric c && leb (length rest) 62 && ends_label rest

-- `strings.Split` at a single byte: what stands before the first one, and the rest.
unfoldable pub split_from : ℕ → Bytes → Bytes × List Bytes
split_from separator [] = ([], [])
split_from separator (c ∷ s) =
    let (part, parts) = split_from separator s in
    if c == separator then ([], part ∷ parts) else (c ∷ part, parts)

unfoldable pub split : ℕ → Bytes → List Bytes
unfolding split_from
split separator s = let (part, parts) = split_from separator s in part ∷ parts

unfoldable pub valid_trust_domain : Bytes → Bool
unfolding split is_domain_label
valid_trust_domain domain =
    if length domain == 0 || ltb 253 (length domain)
    then false
    else not (any (λ label. not (is_domain_label label)) (split b'.' domain))

-- A SPIFFE ID, as go-spiffe takes it apart; `text` is its `String()`.
pub record SpiffeId : Type 0 where
  pub trust_domain : Bytes
  pub path : Bytes
  pub text : Bytes

pub record Components : Type 0 where
  pub logical : Bytes
  pub instance_id : Bytes
  pub workload : Bytes

-- The parts of /device/<logical>/instance/<instance>/workload/<workload>.
unfoldable pub named_parts : List Bytes → Option Components
named_parts (p0 ∷ p1 ∷ p2 ∷ p3 ∷ p4 ∷ p5 ∷ p6 ∷ []) =
    if is_empty p0
      && bytes_eq p1 (codes "device")
      && bytes_eq p3 (codes "instance")
      && bytes_eq p5 (codes "workload")
    then some (record { logical = p2; instance_id = p4; workload = p6 })
    else none
named_parts _ = none

unfoldable pub are_segments : Components → Bool
unfolding is_workload_segment
are_segments c =
    is_workload_segment c.logical
    && is_workload_segment c.instance_id
    && is_workload_segment c.workload

or_denied : Option Components → Result AuthenticationError Components
or_denied none = err denied
or_denied (some c) = ok c

-- `WorkloadComponents`; its callers use the logical device and the instance.
unfoldable pub workload_components : SpiffeId → Result AuthenticationError Components
unfolding split named_parts are_segments valid_trust_domain or_denied
workload_components id = do
  refuse_if (not (valid_trust_domain id.trust_domain)) denied
  parts ← or_denied (named_parts (split b'/' id.path))
  refuse_if (not (are_segments parts)) denied
  ok parts

-- The first certificate of a peer.
pub record Leaf : Type 0 where
  pub not_before : Time
  pub not_after : Time

-- `WorkloadPolicy`: whether it has its parts, and the trust domain that it expects.
pub record WorkloadPolicy : Type 0 where
  pub has_bundles : Bool
  pub has_authorizer : Bool
  pub trust_domain : Bytes

or_unauthenticated : {A : Type 0} → Option A → Result AuthenticationError A
or_unauthenticated none = err unauthenticated
or_unauthenticated (some a) = ok a

-- `leaf` is `none` where there is no TLS state or no certificate. `verified` is what
-- `x509svid.Verify` makes of the chain at a time, and `authorize` is the authorizer of the policy.
unfoldable pub resolve_request :
    WorkloadPolicy
    → Option Leaf
    → Time
    → (Time → Option SpiffeId)
    → (SpiffeId → Result AuthenticationError Device)
    → Result AuthenticationError Device
unfolding or_unauthenticated
resolve_request policy leaf at verified authorize = do
  refuse_if (not policy.has_bundles || not policy.has_authorizer) unauthenticated
  first ← or_unauthenticated leaf
  refuse_if (ltb at first.not_before || leb first.not_after at) unauthenticated
  id ← or_unauthenticated (verified at)
  refuse_if (not (bytes_eq id.trust_domain policy.trust_domain)) unauthenticated
  parts ← workload_components id
  authorize id
