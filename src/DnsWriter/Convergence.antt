-- ===== src/DnsWriter/Convergence.antt =====
-- The observer sees what the writer writes.
use nixos_kaiba_network.Prelude.{
  ◌≡◌, Option, some, List, map, Bytes, bytes_eq, bytes_lt, bytes_eq_iff, bytes_lt_irrefl,
  bytes_lt_trans, bytes_lt_tri, keep, All,
}
use nixos_kaiba_network.Prelude.Sorted.{TotalOrder}
use nixos_kaiba_network.Net.{Addr, unmap, addr_order}
use nixos_kaiba_network.Model.{Platform}
use nixos_kaiba_network.Model.Canonical.{IsPlain, IsValid}
use nixos_kaiba_network.DnsWriter.{as_slice, Dns, RecordType, with_dns_port}
use nixos_kaiba_network.DnsWriter.Observer.{Message, Transport}
use nixos_kaiba_network.DnsWriter.Zone.{ZoneRecord, rrset, serve}
use nixos_kaiba_network.DnsWriter.Replacement.{is_kind}

instance abbrev bytes_order : TotalOrder Bytes
bytes_order = record {
  lt = bytes_lt;
  eq = bytes_eq;
  eq_iff = bytes_eq_iff;
  irrefl = bytes_lt_irrefl;
  trans = bytes_lt_trans;
  tri = bytes_lt_tri;
}

-- An address without a zone.
abbrev pub IsZoneless : Addr → Type 0
IsZoneless a = as_slice a ≡ a

-- Servers that answer from their copies of the zone, over either transport.
pub replicas : (Bytes → List ZoneRecord) → Transport → Bytes → Bytes → RecordType → Option Message
replicas zone_at transport server name kind = some (serve (zone_at server) name kind)

module _ (dns : Dns) (platform : Platform) where
  open platform use {addr_string}

  abbrev texts : List Addr → List Bytes
  texts = map (λ a. addr_string (unmap a))

  module _ (zone_at : Bytes → List ZoneRecord) (hostname : Bytes) (addresses : List Addr)
      (plain : All IsPlain addresses) (valid : All IsValid addresses) where
    -- A server whose copy has just these addresses at the name.
    abbrev HasAddresses : Bytes → Type 0
    HasAddresses server =
        (kind : RecordType)
        → rrset (dns.fqdn hostname) kind (zone_at (with_dns_port dns platform server))
          ≡ keep (is_kind kind) addresses
