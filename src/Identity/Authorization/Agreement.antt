-- ===== src/Identity/Authorization/Agreement.antt =====
-- What an authorized device is, and that both ways to identify a device agree on it.
use nixos_kaiba_network.Prelude.{
  ◌+◌, ◌≤◌, ◌<◌, ◌≡◌, ◌↔◌, refl, sym, ap, ◌∙◌, Bool, true, false, not, ◌||◌, Option, none, some,
  List, ◌++◌, Bytes, codes, bytes_eq_sound, length, arith, inl, inr, Bool-cases, ◌==◌, Result, ok,
  err, >>=-eq-ok, refuse_if-eq-ok,
}
use nixos_kaiba_network.Prelude.Hex.{hex}
use nixos_kaiba_network.Model.{Time}
use nixos_kaiba_network.Identity.{
  Device, AuthenticationError, denied, unavailable, is_device_id, Uri, SpiffePolicy, resolve,
  trim_dot,
}
use nixos_kaiba_network.Identity.Unique.{hostname_of, hostname_of-injective, resolve-hostname}
use nixos_kaiba_network.Identity.Decision.{Decision, Document, DecisionError, decode_decision}
use nixos_kaiba_network.Identity.Workload.{
  SpiffeId, Components, workload_components, valid_trust_domain,
}
use nixos_kaiba_network.Identity.Authorization.{
  FleetAuthorizer, FleetUrl, is_origin, new_fleet_authorizer, Answer, has_suffix, or_unavailable,
  or_unusable, five_seconds, is_current, limited, is_for, is_timely, authorize_dns,
}

or_unavailable_ok : {A : Type 0} (o : Option A) (a : A) → or_unavailable o ≡ ok a → o ≡ some a
unfolding or_unavailable
or_unavailable_ok none a h = cc
or_unavailable_ok (some b) a h = ground arith

or_unusable_ok : {A : Type 0} (r : Result DecisionError A) (a : A) → or_unusable r ≡ ok a → r ≡ ok a
unfolding or_unusable
or_unusable_ok (err e) a h = cc
or_unusable_ok (ok b) a h = ground arith

limited_ok :
    (o : Option Bytes) (body : Bytes)
    → limited o ≡ some body
    → (o ≡ some body) × (length body ≤ 16384)
unfolding limited
limited_ok none body h = cc
limited_ok (some b) body h = ground arith

both : (a b : Bool) → (not a || not b) ≡ false → (a ≡ true) × (b ≡ true)
both true b h = (refl, ground arith)
both false b h = cc

negated : (a : Bool) → not a ≡ false → a ≡ true
negated true h = refl
negated false h = cc

ok_eq : (a b : Device) → Path (Result AuthenticationError Device) (ok a) (ok b) → a ≡ b
ok_eq a b h = ground arith

is_current_ok :
    (now : Time) (checked expires : Option Time)
    → is_current now checked expires ≡ true
    → (t : Time) × (checked ≡ some t)
      × (t ≤ now)
      × (now < t + five_seconds)
      × (expires ≡ some (t + five_seconds))
unfolding is_current
is_current_ok now none expires h = cc
is_current_ok now (some t) none h = cc
is_current_ok now (some t) (some e) h = (t, refl, ground arith, ground arith, ground arith)

zone_of :
    (to_lower : Bytes → Bytes) (has_client : Bool) (url : Option FleetUrl) (zone : Bytes)
    (f : FleetAuthorizer)
    → new_fleet_authorizer to_lower has_client url zone ≡ some f
    → f.zone ≡ trim_dot (to_lower zone)
unfolding new_fleet_authorizer
zone_of to_lower has_client url zone f made =
    elim (Bool-cases (not has_client || not (is_origin url))) [
      | inl bad ↦ absurd (let e = rw bad at made in cc)
      | inr good ↦ elim (Bool-cases (not (valid_trust_domain (trim_dot (to_lower zone))))) [
        | inl bad ↦ absurd (let e = rw (good, bad) at made in cc)
        | inr valid ↦ let e = rw (good, valid) at made in ground arith
      ]
    ]

module _ (decode_document : Bytes → Option Document) (parse_time : Bytes → Option Time) where
  -- The answer that an authorization rests on: one body, in the answer to a request under the
  -- fresh request ID, with a decision for this ID that was checked at `checked`.
  pub record Grounds (f : FleetAuthorizer) (answer : Bytes → Option Answer) (id : SpiffeId)
      (request_id : Bytes) (decision : Decision) (checked : Time) : Type 0 where
    pub body : Bytes
    pub answered : answer request_id ≡ some (record { status_code = 200; body = some body })
    pub short : length body ≤ 16384
    pub decoded : decode_decision (decode_document body) ≡ ok decision
    pub same_request : decision.request_id ≡ request_id
    pub same_id : decision.spiffe_id ≡ id.text
    pub device_id : is_device_id decision.dns_device_id ≡ true
    pub hostname : decision.hostname ≡ codes "pi-" ++ decision.dns_device_id ++ codes "." ++ f.zone
    pub checked_at : parse_time decision.checked_at ≡ some checked
    pub expires_at : parse_time decision.expires_at ≡ some (checked + five_seconds)

  is_for_ok :
      (f : FleetAuthorizer) (id : SpiffeId) (parts : Components) (request_id : Bytes) (d : Decision)
      → is_for decode_document parse_time f id parts request_id d ≡ true
      → (d.request_id ≡ request_id)
        × (d.spiffe_id ≡ id.text)
        × (is_device_id d.dns_device_id ≡ true)
        × (d.hostname ≡ codes "pi-" ++ d.dns_device_id ++ codes "." ++ f.zone)
  unfolding is_for
  is_for_ok f id parts request_id d h = (
    bytes_eq_sound d.request_id request_id (ground arith),
    bytes_eq_sound d.spiffe_id id.text (ground arith),
    ground arith,
    bytes_eq_sound d.hostname _ (ground arith),
  )

  -- The last two checks, and what was known before them.
  Grounds-of :
      (f : FleetAuthorizer) (answer : Bytes → Option Answer) (now : Time) (id : SpiffeId)
      (parts : Components) (request_id : Bytes) (reply : Answer) (body : Bytes)
      (decision : Decision)
      → answer request_id ≡ some reply
      → (reply.status_code == 200) ≡ true
      → limited reply.body ≡ some body
      → decode_decision (decode_document body) ≡ ok decision
      → is_for decode_document parse_time f id parts request_id decision ≡ true
      → is_timely decode_document parse_time now decision ≡ true
      → (checked : Time) × Grounds f answer id request_id decision checked
        × (checked ≤ now)
        × (now < checked + five_seconds)
  unfolding is_timely
  Grounds-of f answer now id parts request_id reply body decision answered fine short decoded meant
        timely =
      let (request, same, device, host) = is_for_ok f id parts request_id decision meant in
      let (checked, c, before, after, e) =
        is_current_ok now (parse_time decision.checked_at) (parse_time decision.expires_at)
          (ground arith) in
      let (whole, fits) = limited_ok reply.body body short in
      let code : reply.status_code ≡ 200 = ground arith in
      (
        checked,
        record {
          body = body;
          answered = answered ∙ λ i. some (record { status_code = code i; body = whole i });
          short = fits;
          decoded = decoded;
          same_request = request;
          same_id = same;
          device_id = device;
          hostname = host;
          checked_at = c;
          expires_at = e;
        },
        before,
        after,
      )

  -- If the fleet authority authorizes a device for a workload, then the random source gave a nonce,
  -- the answer to the request that carried it has status 200 and a body of at most 16384 bytes, and
  -- the body decodes as a decision for that request and this SPIFFE ID, which was checked at a time
  -- not after now and less than five seconds ago; and the device is the one of the decision, with a
  -- device ID and its hostname in the zone.
  pub authorize_dns-Grounds :
      (f : FleetAuthorizer) (nonce : Option Bytes) (answer : Bytes → Option Answer) (now : Time)
      (id : SpiffeId) (device : Device)
      → authorize_dns decode_document parse_time f nonce answer now id ≡ ok device
      → (value : Bytes) × (decision : Decision) × (checked : Time) × (nonce ≡ some value)
        × Grounds f answer id (hex value) decision checked
        × (checked ≤ now)
        × (now < checked + five_seconds)
        × (device.id ≡ decision.dns_device_id)
        × (device.hostname ≡ decision.hostname)
  unfolding authorize_dns
  authorize_dns-Grounds f nonce answer now id device h =
      let (parts, c, h1) = >>=-eq-ok (workload_components id) _ h in
      let (e, h2) =
        refuse_if-eq-ok (not (has_suffix (codes "/workload/dns-updater") id.path)) denied _ h1 in
      let (value, n, h3) = >>=-eq-ok (or_unavailable nonce) _ h2 in
      let (reply, r, h4) = >>=-eq-ok (or_unavailable (answer (hex value))) _ h3 in
      let (s, h5) = refuse_if-eq-ok (reply.status_code == 403) denied _ h4 in
      let (t, h6) = refuse_if-eq-ok (not (reply.status_code == 200)) unavailable _ h5 in
      let (body, b, h7) = >>=-eq-ok (or_unavailable (limited reply.body)) _ h6 in
      let (decision, d, h8) =
        >>=-eq-ok (or_unusable (decode_decision (decode_document body))) _ h7 in
      let (u, h9) =
        refuse_if-eq-ok
          (not (is_for decode_document parse_time f id parts (hex value) decision)
            || not (is_timely decode_document parse_time now decision))
          unavailable _ h8 in
      let (meant, timely) = both _ _ u in
      let (checked, g, before, after) =
        Grounds-of f answer now id parts (hex value) reply body decision
          (or_unavailable_ok (answer (hex value)) reply r) (negated _ t)
          (or_unavailable_ok (limited reply.body) body b)
          (or_unusable_ok (decode_decision (decode_document body)) decision d) meant timely in
      let same = ok_eq _ device h9 in
      (
        value,
        decision,
        checked,
        or_unavailable_ok nonce value n,
        g,
        before,
        after,
        sym (ap (λ (x : Device). x.id) same),
        sym (ap (λ (x : Device). x.hostname) same),
      )

  -- Where both ways to identify a device serve one zone, a device that a certificate names and a
  -- device that the fleet authority authorizes have one hostname exactly if they have one ID: a
  -- change between the two ways never gives a device's hostname to another device.
  pub authorize_dns-resolve :
      (to_lower : Bytes → Bytes) (policy : SpiffePolicy) (certificate : Option (List (Option Uri)))
      (device device' : Device) (has_client : Bool) (url : Option FleetUrl) (f : FleetAuthorizer)
      (nonce : Option Bytes) (answer : Bytes → Option Answer) (now : Time) (id : SpiffeId)
      → resolve to_lower policy certificate ≡ ok device
      → new_fleet_authorizer to_lower has_client url policy.zone ≡ some f
      → authorize_dns decode_document parse_time f nonce answer now id ≡ ok device'
      → (device.id ≡ device'.id) ↔ (device.hostname ≡ device'.hostname)
  authorize_dns-resolve to_lower policy certificate device device' has_client url f nonce answer now
        id resolved made authorized =
      let (value, decision, checked, _, g, _, _, ids, hosts) =
        authorize_dns-Grounds f nonce answer now id device' authorized in
      let back = sym ids in
      let zone = zone_of to_lower has_client url policy.zone f made in
      let named : device.hostname ≡ hostname_of to_lower policy device.id =
        resolve-hostname to_lower policy certificate device resolved in
      let named' : device'.hostname ≡ hostname_of to_lower policy device'.id =
        hosts ∙ g.hostname ∙ (λ i. codes "pi-" ++ back i ++ codes "." ++ zone i) in
      (
        λ same. named ∙ ap (hostname_of to_lower policy) same ∙ sym named',
        λ same.
            hostname_of-injective to_lower policy device.id device'.id (sym named ∙ same ∙ named'),
      )
