-- ===== src/Agent/Discovery.antt =====
-- dns/internal/agent/agent.go: the addresses that the network interfaces give a device.
pub mod Routable
use nixos_kaiba_network.Prelude.{
  ◌≡◌, refl, Bool, true, false, not, ◌||◌, ◌&&◌, Option, none, some, List, [], ◌∷◌, ◌++◌, Bytes,
  bytes_eq, any, is_empty, if◌then◌else◌, Result, ok, err, ◌>>=◌,
}
use nixos_kaiba_network.Prelude.Sorted.{sort}
use nixos_kaiba_network.Net.{Addr, addr_lt}
use nixos_kaiba_network.Model.{Platform, canonical_addresses}
use nixos_kaiba_network.Address.{is_publicly_routable}
use nixos_kaiba_network.Agent.{AgentError, discovery_failed}

-- A network interface; `assigned` is `none` where its addresses cannot be read.
pub record Interface : Type 0 where
  pub name : Bytes
  pub is_up : Bool
  pub is_loopback : Bool
  pub assigned : Option (List Bytes)

-- The address of a prefix, as `netip.ParsePrefix` reads it.
pub record Prefixes : Type 0 where
  pub parse_prefix : Bytes → Option Addr

unfoldable pub is_skipped : List Bytes → Interface → Bool
is_skipped allowed interface =
    (not (is_empty allowed) && not (any (λ name. bytes_eq name interface.name) allowed))
    || not interface.is_up
    || interface.is_loopback

if_routable : Option Addr → List Addr
if_routable none = []
if_routable (some addr) = if is_publicly_routable addr then addr ∷ [] else []

or_parsed : Option Addr → Option Addr → List Addr
unfolding if_routable
or_parsed (some addr) parsed = if_routable (some addr)
or_parsed none parsed = if_routable parsed

module _ (platform : Platform) (prefixes : Prefixes) where
  -- The addresses of the texts that one interface gives.
  unfoldable pub assigned_addresses : List Bytes → List Addr
  unfolding or_parsed
  assigned_addresses [] = []
  assigned_addresses (value ∷ values) =
      or_parsed (prefixes.parse_prefix value) (platform.parse_addr value)
      ++ assigned_addresses values

  unfoldable pub read_interface : Option (List Bytes) → Result AgentError (List Addr)
  unfolding assigned_addresses
  read_interface none = err discovery_failed
  read_interface (some values) = ok (assigned_addresses values)

  -- The loop over the interfaces.
  unfoldable pub collect : List Bytes → List Interface → Result AgentError (List Addr)
  unfolding is_skipped read_interface
  collect allowed [] = ok []
  collect allowed (interface ∷ interfaces) =
      let rest = collect allowed interfaces in
      if is_skipped allowed interface
      then rest
      else do addresses ← read_interface interface.assigned; later ← rest; ok (addresses ++ later)

  -- `interfaces` is `none` where they cannot be listed.
  unfoldable pub discover_addresses :
      List Bytes → Option (List Interface) → Result AgentError (List Addr)
  unfolding collect
  discover_addresses allowed none = err discovery_failed
  discover_addresses allowed (some interfaces) = do
    addresses ← collect allowed interfaces
    ok (sort addr_lt (canonical_addresses addresses))
