-- ===== src/Commands/Wiring.antt =====
-- What the commands start with.
use nixos_kaiba_network.Prelude.{
  ◌<◌, ◌≡◌, refl, subst, Bool, true, false, not, Option, none, some, List, [], ◌∷◌, All, Bytes,
  is_empty, codes, ok, Option-cases, ap, ◌∙◌, sym, arith, >>=-eq-ok, refuse_if-eq-ok, inl, inr,
}
use nixos_kaiba_network.Net.{Addr, is_valid, is4in6}
use nixos_kaiba_network.Model.{Platform}
use nixos_kaiba_network.Identity.Workload.{valid_trust_domain}
use nixos_kaiba_network.Identity.Authorization.{FleetUrl, FleetAuthorizer, new_fleet_authorizer}
use nixos_kaiba_network.Controller
use nixos_kaiba_network.Controller.{Handler, new_handler}
use nixos_kaiba_network.Agent.{Url, Agent, Config, new_agent}
use nixos_kaiba_network.Commands.{
  Mode, AgentOptions, check_flag, parse_flags, agent_command, agent_mode, or_invalid,
  or_no_authorizer, ControllerOptions, RequestPolicy, Surroundings, controller_mode, request_policy,
  controller_command, file_mode, spiffe_mode, by_certificate, by_workload,
}

abbrev pub IsPlain : Addr → Type 0
IsPlain addr = (is_valid addr ≡ true) × (is4in6 addr ≡ false)

abbrev pub AreDurations : Handler → Type 0
AreDurations h = (0 < h.renew_after) × (h.renew_after < h.lease_duration)

new_handler-AreDurations :
    (config : Controller.Config) (h : Handler) → new_handler config ≡ some h → AreDurations h
unfolding new_handler
new_handler-AreDurations config h made = ground arith

check_flag-IsPlain :
    (platform : Platform) (text : Bytes) (addr : Addr)
    → check_flag text (platform.parse_addr text) ≡ ok addr
    → IsPlain addr
unfolding check_flag
check_flag-IsPlain platform text addr h = elim (Option-cases (platform.parse_addr text)) [
  | inl missing ↦ absurd (cc)
  | inr (found, e) ↦
      let same : (found ≡ addr) × (is4in6 found ≡ false) = ground arith in
      (platform.parse_valid text addr (e ∙ ap some same.0), ap is4in6 (sym same.0) ∙ same.1)
]

new_fleet_authorizer-zone :
    (to_lower : Bytes → Bytes) (has_client : Bool) (url : Option FleetUrl) (zone : Bytes)
    (f : FleetAuthorizer)
    → new_fleet_authorizer to_lower has_client url zone ≡ some f
    → valid_trust_domain f.zone ≡ true
unfolding new_fleet_authorizer
new_fleet_authorizer-zone to_lower has_client url zone f h = ground arith

controller_mode-trust_domain :
    (o : ControllerOptions)
    → controller_mode o ≡ ok spiffe_mode
    → valid_trust_domain o.trust_domain ≡ true
unfolding controller_mode
controller_mode-trust_domain o h = ground arith

new_agent-addresses :
    (config : Config) (agent : Agent)
    → new_agent config ≡ some agent
    → config.addresses ≡ agent.addresses
unfolding new_agent
new_agent-addresses config agent h = ground arith

or_invalid-ok : {A : Type 0} (found : Option A) (a : A) → or_invalid found ≡ ok a → found ≡ some a
unfolding or_invalid
or_invalid-ok none a h = absurd (cc)
or_invalid-ok (some b) a h = cc

or_no_authorizer-ok :
    (found : Option FleetAuthorizer) (f : FleetAuthorizer)
    → or_no_authorizer found ≡ ok f
    → found ≡ some f
unfolding or_no_authorizer
or_no_authorizer-ok none f h = absurd (cc)
or_no_authorizer-ok (some g) f h = cc

module _ (platform : Platform) where
  parse_flags-All :
      (texts : List Bytes) (addresses : List Addr)
      → parse_flags platform texts ≡ ok addresses
      → All IsPlain addresses
  unfolding parse_flags
  parse_flags-All [] addresses h = let same : [] ≡ addresses = cc in subst (All IsPlain) same tt
  parse_flags-All (text ∷ texts) addresses h =
      let (addr, found, next) = >>=-eq-ok (check_flag text (platform.parse_addr text)) _ h in
      let (rest, later, whole) = >>=-eq-ok (parse_flags platform texts) _ next in
      let same : addr ∷ rest ≡ addresses = cc in
      subst (All IsPlain) same
        (check_flag-IsPlain platform text addr found, parse_flags-All texts rest later)

  -- If the agent's command starts, then every address of its flags is a valid address that is not
  -- IPv4-mapped.
  pub agent_command-All :
      (parse_url : Bytes → Option Url) (has_client : Mode → Bool) (o : AgentOptions) (agent : Agent)
      → agent_command platform parse_url has_client o ≡ ok agent
      → All IsPlain agent.addresses
  unfolding agent_command
  agent_command-All parse_url has_client o agent h =
      let h1 = (refuse_if-eq-ok (is_empty o.endpoint) _ _ h).1 in
      let (addresses, parsed, h2) = >>=-eq-ok (parse_flags platform o.addresses) _ h1 in
      let (mode, chosen, h3) = >>=-eq-ok (agent_mode o) _ h2 in
      let h4 = (refuse_if-eq-ok (not (has_client mode)) _ _ h3).1 in
      let same : addresses ≡ agent.addresses =
        new_agent-addresses _ agent (or_invalid-ok _ agent h4) in
      subst (All IsPlain) same (parse_flags-All o.addresses addresses parsed)

abbrev pub AreGuarded : RequestPolicy → Type 0
AreGuarded (by_certificate policy) = policy.trust_domain ≡ codes "kaiba.network"
AreGuarded (by_workload policy f) =
    (valid_trust_domain policy.trust_domain ≡ true) × (valid_trust_domain f.zone ≡ true)

module _ (to_lower : Bytes → Bytes) (s : Surroundings) where
  request_policy-AreGuarded :
      (o : ControllerOptions) (mode : Mode) (policy : RequestPolicy)
      → controller_mode o ≡ ok mode
      → request_policy to_lower s o mode ≡ ok policy
      → AreGuarded policy
  unfolding request_policy
  request_policy-AreGuarded o file_mode policy chosen h =
      let h1 = (refuse_if-eq-ok (not s.has_credentials) _ _ h).1 in
      let same : by_certificate (record { trust_domain = codes "kaiba.network"; zone = o.zone })
          ≡ policy =
        cc in
      subst AreGuarded same refl
  request_policy-AreGuarded o spiffe_mode policy chosen h =
      let h1 = (refuse_if-eq-ok (not s.has_source) _ _ h).1 in
      let (f, found, h2) =
        >>=-eq-ok
          (or_no_authorizer
            (new_fleet_authorizer to_lower s.has_client (s.parse_url o.fleet_url) o.zone))
          _ h1 in
      let h3 = (refuse_if-eq-ok (not s.has_server_tls) _ _ h2).1 in
      let same : by_workload
            (record { has_bundles = true; has_authorizer = true; trust_domain = o.trust_domain }) f
          ≡ policy =
        cc in
      subst AreGuarded same (
        controller_mode-trust_domain o chosen,
        new_fleet_authorizer-zone to_lower s.has_client (s.parse_url o.fleet_url) o.zone f
            (or_no_authorizer-ok _ f found),
      )

  -- If the controller's command starts, then its handler has a positive renewal interval that is
  -- shorter than its lease, and it identifies devices either by certificates of the trust domain
  -- kaiba.network, or by workloads of a canonical trust domain and an authorizer of a canonical zone.
  pub controller_command-AreGuarded :
      (o : ControllerOptions) (h : Handler) (policy : RequestPolicy)
      → controller_command to_lower s o ≡ ok (h, policy)
      → AreDurations h × AreGuarded policy
  unfolding controller_command
  controller_command-AreGuarded o h policy starts =
      let h1 = (refuse_if-eq-ok (not s.has_clock) _ _ starts).1 in
      let h2 = (refuse_if-eq-ok (not s.has_store) _ _ h1).1 in
      let (mode, chosen, h3) = >>=-eq-ok (controller_mode o) _ h2 in
      let (policy', made, h4) = >>=-eq-ok (request_policy to_lower s o mode) _ h3 in
      let (h', built, h5) = >>=-eq-ok (or_invalid (new_handler _)) _ h4 in
      let same : (h' ≡ h) × (policy' ≡ policy) = (cc, cc) in
      (
        subst AreDurations same.0 (new_handler-AreDurations _ h' (or_invalid-ok _ h' built)),
        subst AreGuarded same.1 (request_policy-AreGuarded o mode policy' chosen made),
      )
