-- ===== src/Examples/Zones.antt =====
-- Examples of the DNS writer and the observer.
use nixos_kaiba_network.Prelude.{true, List, [], ◌∷◌, Bytes, codes}
use nixos_kaiba_network.Prelude.Int.{pos}
use nixos_kaiba_network.Net.{addr_order}
use nixos_kaiba_network.DnsWriter.{
  Dns, type_a, type_aaaa, remove_rrset, insert_record, Rfc2136, UpdateCall,
}
use nixos_kaiba_network.DnsWriter.Zone.{ZoneRecord, address, another, apply_changes}
use nixos_kaiba_network.Examples.Fixtures.{address_a, address_b}

abbrev dns : Dns
dns = record {
  fqdn = λ name. name;
  is_sub_domain = λ zone name. true;
  to_lower = λ text. text;
  hmac_sha256 = codes "hmac-sha256.";
  has_port = λ server. true;
  join_host_port = λ host port. host;
}

abbrev writer : Rfc2136
writer = record {
  server = codes "ns:53";
  zone = codes "org.";
  tsig_name = codes "key";
  tsig_secret = codes "s";
  algorithm = codes "hmac-sha512.";
  timeout = pos 0;
}

abbrev host : Bytes
host = codes "pi.org."

abbrev call : UpdateCall
call = record {
  message = record {
    zone = codes "org.";
    changes =
        remove_rrset host type_a
        ∷ remove_rrset host type_aaaa
        ∷ insert_record host type_a address_b 60
        ∷ insert_record host type_a address_a 60
        ∷ [];
    key_name = codes "key";
    algorithm = codes "hmac-sha512.";
    fudge = 300;
  };
  server = codes "ns:53";
  secret = codes "s";
  timeout = 5000000000;
}

abbrev old_zone : List ZoneRecord
old_zone = address host type_a address_a 30 ∷ another host (codes "TXT") ∷ []

abbrev new_zone : Bytes → List ZoneRecord
new_zone server = apply_changes call.message.changes old_zone
