-- ===== src/Examples/Agents.antt =====
-- Examples of the agent: its keys, its loop, its updates and its addresses.
use nixos_kaiba_network.Agent.Pending.{
  clear_pending, from_result, on_disk, read_pending, read_precondition, write_pending, ◌>>=◌,
}
use nixos_kaiba_network.Model.{canonical_addresses, dedup}
use nixos_kaiba_network.Prelude.Sorted.{elem, sort}
use nixos_kaiba_network.Api.{parse_generation_etag}
use nixos_kaiba_network.Prelude.{strip_prefix}
use nixos_kaiba_network.Address.{is_publicly_routable}
use nixos_kaiba_network.Net.{contains, is4in6, is_global_unicast, is_private, is_valid, unmap}
use nixos_kaiba_network.Prelude.{
  ℕ, suc, ◌+◌, ◌*◌, ◌≤◌, ◌<◌, ◌≡◌, refl, Bool, true, false, ◌⊎◌, none, some, List, [], ◌∷◌, All,
  arith, Bytes, codes, length, Result, ok, err,
}
use nixos_kaiba_network.Prelude.Int.{pos}
use nixos_kaiba_network.Prelude.Sorted.{Ascending}
use nixos_kaiba_network.Net.{addr_lt}
use nixos_kaiba_network.Model.{accepted}
use nixos_kaiba_network.Api.{DeviceState, addresses_from_net_ip}
use nixos_kaiba_network.Controller.Request.{is_idempotency_key, validate_addresses}
use nixos_kaiba_network.Agent.{
  Agent, AgentError, no_connection, http, retryable, is_retryable, Request, reads_status,
  writes_endpoints, Exchange, answered, Network, Json,
}
use nixos_kaiba_network.Agent.Keys.{IdBytes, random_id, random_id-is_idempotency_key}
use nixos_kaiba_network.Agent.Loop.{run, rounds_from, react, after_wait, with_report, stopped}
use nixos_kaiba_network.Agent.Loop.Backoff.{counted_from, run-counted}
use nixos_kaiba_network.Agent.Loop.Endings.{exit_of, first_fatal, run-first_fatal}
use nixos_kaiba_network.Agent.Discovery.{Interface, Prefixes, discover_addresses}
use nixos_kaiba_network.Agent.Discovery.Routable.{IsRoutable, discover_addresses-validate_addresses}
use nixos_kaiba_network.Agent.Pending.{Disk, Attempt}
use nixos_kaiba_network.Agent.Update.{update_once}
use nixos_kaiba_network.Agent.Update.Costs.{price, update_once-cost}
use nixos_kaiba_network.Agent.Update.Success.{IsSettled, update_once-IsSettled}
use nixos_kaiba_network.Examples.Fixtures.{small_platform, address_a, device}

abbrev random_bytes : IdBytes
random_bytes = record {
  b0 = 0;
  b1 = 1;
  b2 = 2;
  b3 = 3;
  b4 = 4;
  b5 = 5;
  b6 = 0xf6;
  b7 = 7;
  b8 = 0xf8;
  b9 = 9;
  b10 = 10;
  b11 = 11;
  b12 = 12;
  b13 = 13;
  b14 = 14;
  b15 = 255;
}

abbrev made_key : Bytes
made_key = codes "00010203-0405-4607-b809-0a0b0c0d0eff"

key_made : random_id (some random_bytes) ≡ some made_key
unfolding random_id
key_made = refl

random_id-is_idempotency_key_example : (length made_key ≡ 36) × (is_idempotency_key made_key ≡ true)
random_id-is_idempotency_key_example =
    random_id-is_idempotency_key random_bytes made_key (omega arith) key_made

abbrev agent : Agent
agent = record {
  addresses = address_a ∷ [];
  interfaces = [];
  renew_interval = 300000000000;
  request_timeout = 30000000000;
  once = false;
}

-- A round that succeeds, or one that fails without a connection.
abbrev outcome : Bool → ℕ → ℕ × Result AgentError ℕ
outcome true s = (suc s, ok s)
outcome false s = (suc s, err no_connection)

abbrev three_rounds : List (Bool × Bool)
three_rounds = (false, false) ∷ (false, false) ∷ (true, false) ∷ []

run-counted_example : run agent outcome three_rounds 0 ≡ counted_from agent outcome 0 three_rounds 0
run-counted_example = run-counted agent outcome three_rounds 0

-- A controller that answers each round with a status.
abbrev answer : ℕ → ℕ → ℕ × Result AgentError ℕ
answer code s = (suc s, err (http (record { status_code = code; code = []; message = [] })))

abbrev statuses : List (ℕ × Bool)
statuses = (503, false) ∷ (412, false) ∷ (403, false) ∷ (503, false) ∷ []

run-first_fatal_example :
    (run agent answer statuses 0).2 ≡ exit_of (first_fatal agent answer statuses 0)
run-first_fatal_example =
    run-first_fatal agent answer refl statuses 0 (refl, (refl, (refl, (refl, tt))))

-- The third answer stops the loop.
stopped_by :
    (run agent answer statuses 0).2
    ≡ stopped (http (record { status_code = 403; code = []; message = [] }))
unfolding run rounds_from react after_wait with_report is_retryable retryable
stopped_by = refl

abbrev state : DeviceState
state = record {
  device_id = device;
  hostname = 2 ∷ [];
  addresses = [];
  generation = pos 1;
  status = accepted;
  lease_expires_at = 9000;
  renew_after_seconds = pos 30;
}

-- A controller that counts its requests, knows no device and accepts every write.
abbrev counting_send : ℕ → Request → ℕ × Exchange
counting_send n reads_status =
    (suc n, answered (record { status_code = 404; etag = []; body = [] }))
counting_send n (writes_endpoints request) =
    (suc n, answered (record { status_code = 202; etag = codes "\"g-1\""; body = 1 ∷ [] }))

abbrev counting : Network
counting = record { State = ℕ; send = counting_send }

abbrev json : Json
json = record {
  decode_state = λ body. some state;
  decode_error = λ body. record { code = []; message = [] };
}

abbrev prefixes : Prefixes
prefixes = record { parse_prefix = λ text. none }

abbrev attempt : Attempt
attempt = record {
  reading = false;
  making_directory = false;
  writing = false;
  renaming = false;
  removing = false;
  interfaces = none;
  key = some made_key;
  now = 1000;
}

abbrev empty_disk : Disk
empty_disk = record { state_file = none; temporary = none }

counting_priced : (n : ℕ) (request : Request) → (counting_send n request).0 ≤ n + price 1 1 request
unfolding price
counting_priced n reads_status = omega arith
counting_priced n (writes_endpoints request) = omega arith

update_once-cost_example :
    (update_once small_platform prefixes json agent counting attempt attempt (empty_disk, 0)).0.1
    ≤ 0 + 2 * 1 + 2 * 1
update_once-cost_example =
    update_once-cost small_platform prefixes json agent counting (λ n. n) 1 1 counting_priced
      attempt attempt empty_disk 0

updated :
    (update_once small_platform prefixes json agent counting attempt attempt (empty_disk, 0)).1
    ≡ ok state
unfolding update_once ◌>>=◌ from_result canonical_addresses sort dedup elem on_disk read_pending
    read_precondition write_pending parse_generation_etag strip_prefix clear_pending
updated = refl

update_once-IsSettled_example :
    IsSettled
      (λ lease. (1000 < lease) ⊎ (1000 < lease))
      (update_once small_platform prefixes json agent counting attempt attempt (empty_disk, 0)).0.0
      state
update_once-IsSettled_example =
    update_once-IsSettled small_platform prefixes json agent counting attempt attempt empty_disk 0
      state updated

-- A loopback interface, and one with a public address and a text that is none.
abbrev interfaces : List Interface
interfaces =
    record { name = codes "lo"; is_up = true; is_loopback = true; assigned = none }
    ∷ record {
      name = codes "eth0";
      is_up = true;
      is_loopback = false;
      assigned = some ((4 ∷ 0x08080808 ∷ []) ∷ codes "?" ∷ []);
    }
    ∷ []

discovered : discover_addresses small_platform prefixes [] (some interfaces) ≡ ok (address_a ∷ [])
unfolding discover_addresses sort canonical_addresses dedup is_publicly_routable is_valid is4in6
    is_global_unicast is_private contains elem unmap
discovered = refl

discover_addresses-validate_addresses_example :
    Ascending addr_lt (address_a ∷ [])
    × All IsRoutable (address_a ∷ [])
    × (validate_addresses small_platform false
          (addresses_from_net_ip small_platform (address_a ∷ []))
        ≡ ok (address_a ∷ []))
discover_addresses-validate_addresses_example =
    discover_addresses-validate_addresses small_platform prefixes [] (some interfaces)
      (address_a ∷ []) false discovered (omega arith) (omega arith)
