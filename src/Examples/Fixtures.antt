-- ===== src/Examples/Fixtures.antt =====
-- The values that the examples share: a small text form of addresses, a digest, and requests.
use nixos_kaiba_network.Prelude.{
  ◌≡◌, refl, true, false, Option, none, some, List, [], ◌∷◌, ◌++◌, arith, Bytes, length, is_empty,
  ◌==◌, if◌then◌else◌,
}
use nixos_kaiba_network.Prelude.Int.{pos}
use nixos_kaiba_network.Net.{Addr, invalid, v4, v6, is_valid}
use nixos_kaiba_network.Model.{Platform}
use nixos_kaiba_network.Store.{must_be_absent, match_generation, UpsertRequest, UpsertResult}

abbrev pub text_of : Addr → Bytes
text_of invalid = []
text_of (v4 n) = 4 ∷ n ∷ []
text_of (v6 n zone) = 6 ∷ n ∷ zone

abbrev pub addr_of : Bytes → Option Addr
addr_of [] = none
addr_of (c ∷ []) = none
addr_of (c ∷ n ∷ zone) =
    if c == 4
    then if is_empty zone then some (v4 n) else none
    else if c == 6
    then some (v6 n zone)
    else none

pub addr_of-text_of : (a : Addr) → is_valid a ≡ true → addr_of (text_of a) ≡ some a
unfolding is_valid
addr_of-text_of invalid h = cc
addr_of-text_of (v4 n) h = refl
addr_of-text_of (v6 n zone) h = refl

pub addr_of_valid : (s : Bytes) (a : Addr) → addr_of s ≡ some a → is_valid a ≡ true
unfolding is_valid
addr_of_valid [] a h = cc
addr_of_valid (c ∷ []) a h = cc
addr_of_valid (c ∷ n ∷ zone) a h = ground arith

abbrev pub joined : List Bytes → Bytes
joined [] = []
joined (b ∷ bs) = length b ∷ (b ++ joined bs)

abbrev pub small_platform : Platform
small_platform = record {
  text = record {
    parse_addr = addr_of;
    addr_string = text_of;
    parse-string = addr_of-text_of;
    parse_valid = addr_of_valid;
  };
  digest = joined;
}

abbrev pub device : Bytes
device = 1 ∷ []

abbrev pub address_a : Addr
address_a = v4 0x08080808

abbrev pub address_b : Addr
address_b = v4 0x08080404

abbrev pub first_write : UpsertRequest
first_write = record {
  device_id = device;
  hostname = 2 ∷ [];
  addresses = address_a ∷ address_b ∷ [];
  idempotency_key = 3 ∷ [];
  precondition = must_be_absent;
  now = 1000;
  lease_duration = 60;
  renew_after_seconds = pos 30;
}

abbrev pub repeated_write : UpsertRequest
repeated_write = record first_write {
  addresses = address_b ∷ address_a ∷ [];
  now = 5000;
  renew_after_seconds = pos 45;
}

abbrev pub next_write : UpsertRequest
next_write = record first_write {
  addresses = address_a ∷ [];
  idempotency_key = 4 ∷ [];
  precondition = match_generation (pos 1);
  now = 1010;
}

abbrev pub first_result : UpsertResult
first_result = record {
  intent = record {
    device_id = device;
    hostname = 2 ∷ [];
    addresses = address_b ∷ address_a ∷ [];
    generation = pos 1;
    lease_expires_at = 1060;
    updated_at = 1000;
    origin_applied_generation = pos 0;
    public_observed_generation = pos 0;
    last_publication_error = [];
  };
  renew_after_seconds = pos 30;
  replay = false;
}
