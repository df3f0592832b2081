-- ===== src/Examples/Identities.antt =====
-- Examples of certificates.
use nixos_kaiba_network.Prelude.{
  ◌≡◌, refl, false, some, none, [], ◌∷◌, Bytes, codes, strip_prefix, bytes_eq, ok,
}
use nixos_kaiba_network.Identity.{
  Device, Uri, SpiffePolicy, is_device_id, device_path_id, trim_dot, is_spiffe_of, candidate_id,
  match_ids, candidate_ids, resolve,
}
use nixos_kaiba_network.Identity.Unique.{
  named_ids, only_id, device_of, resolve_lem, resolve-injective,
}

abbrev same_text : Bytes → Bytes
same_text s = s

abbrev policy : SpiffePolicy
policy = record { trust_domain = codes "kaiba.example"; zone = codes "dyn.example." }

abbrev uri : Uri
uri = record {
  scheme = codes "spiffe";
  host = codes "kaiba.example";
  has_user = false;
  opaque_part = [];
  raw_query = [];
  force_query = false;
  fragment = [];
  escaped_path = codes "/device/007";
}

abbrev pi_device : Device
pi_device = record { id = codes "007"; hostname = codes "pi-007.dyn.example" }

resolved : resolve same_text policy (some (none ∷ some uri ∷ [])) ≡ ok pi_device
unfolding resolve candidate_id candidate_ids match_ids trim_dot is_spiffe_of device_path_id
    is_device_id strip_prefix bytes_eq
resolved = refl

resolve_lem_example :
    resolve same_text policy (some (some uri ∷ some uri ∷ []))
    ≡ device_of same_text policy (
        only_id
          (named_ids (candidate_ids (trim_dot policy.trust_domain) (some uri ∷ some uri ∷ []))))
resolve_lem_example = resolve_lem same_text policy (some uri ∷ some uri ∷ [])

resolve-injective_example : pi_device ≡ pi_device
resolve-injective_example =
    resolve-injective same_text policy (some (none ∷ some uri ∷ [])) (some (none ∷ some uri ∷ []))
      pi_device pi_device resolved resolved refl
