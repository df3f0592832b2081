-- ===== src/DnsWriter.antt =====
-- dns/internal/dnswriter/dnswriter.go: the update message of the RFC 2136 writer, and the observer of
-- the authoritative servers. The DNS library is a parameter.
pub mod Elsewhere
pub mod Replacement
pub mod Convergence
pub mod Zone
pub mod Observer
use nixos_kaiba_network.Prelude.{
  ℕ, Bool, true, false, not, ◌||◌, ◌&&◌, Option, none, some, List, [], ◌∷◌, ◌++◌, map, reverse,
  Bytes, codes, bytes_eq, bytes_lt, is_empty, length, ◌==◌, if◌then◌else◌, Result, ok, err, ◌>>=◌,
  ◌>>◌, refuse_if,
}
use nixos_kaiba_network.Prelude.Int.{ℤ, pos, pos_part, leb_ℤ}
use nixos_kaiba_network.Prelude.Sorted.{sort}
use nixos_kaiba_network.Net.{Addr, v6, is4, is6, unmap}
use nixos_kaiba_network.Model.{Platform}
use nixos_kaiba_network.Controller.Request.{trim_space}

-- The functions on names of the DNS library, and those on the host and port of a server.
pub record Dns : Type 0 where
  pub fqdn : Bytes → Bytes
  pub is_sub_domain : Bytes → Bytes → Bool
  pub to_lower : Bytes → Bytes
  pub hmac_sha256 : Bytes
  pub has_port : Bytes → Bool
  pub join_host_port : Bytes → Bytes → Bytes

pub data RecordType : Type 0 where
  type_a type_aaaa : RecordType

pub record Rfc2136 : Type 0 where
  pub server : Bytes
  pub zone : Bytes
  pub tsig_name : Bytes
  pub tsig_secret : Bytes
  pub algorithm : Bytes
  pub timeout : ℤ

-- A part of the update section of a message.
pub data Change : Type 0 where
  remove_rrset : Bytes → RecordType → Change
  insert_record : Bytes → RecordType → Addr → ℕ → Change

pub record Update : Type 0 where
  pub zone : Bytes
  pub changes : List Change
  pub key_name : Bytes
  pub algorithm : Bytes
  pub fudge : ℕ

-- What the client is given besides the message.
pub record UpdateCall : Type 0 where
  pub message : Update
  pub server : Bytes
  pub secret : Bytes
  pub timeout : ℕ

pub record UpdateResponse : Type 0 where
  pub rcode : ℕ
  pub has_tsig : Bool
  pub is_response : Bool
  pub opcode : ℕ
  pub questions : List Bytes

-- The client returns an error, no response, or a response.
pub data UpdateExchange : Type 0 where
  exchange_failed no_message : UpdateExchange
  message : UpdateResponse → UpdateExchange

pub data WriteError : Type 0 where
  outside_zone missing_credentials invalid_address update_failed no_response : WriteError
  unauthenticated_response mismatched_response : WriteError
  update_refused : ℕ → WriteError

-- `strings.Trim(s, "[]")`
unfoldable pub drop_brackets : Bytes → Bytes
drop_brackets [] = []
drop_brackets (c ∷ s) = let rest = drop_brackets s in if c == b'[' || c == b']' then rest else c ∷ s

unfoldable pub trim_brackets : Bytes → Bytes
unfolding drop_brackets
trim_brackets s = reverse (drop_brackets (reverse (drop_brackets s)))

-- The address of `net.IP(addr.AsSlice())`: the bytes have no zone.
unfoldable pub as_slice : Addr → Addr
as_slice (v6 n zone) = v6 n []
as_slice addr = addr

-- The loop that inserts the addresses.
unfoldable pub insert_addresses : Bytes → ℕ → List Addr → Result WriteError (List Change)
unfolding as_slice
insert_addresses name ttl [] = ok []
insert_addresses name ttl (addr ∷ addresses) =
    let rest = insert_addresses name ttl addresses in
    if is4 (unmap addr)
    then (do changes ← rest; ok (insert_record name type_a (as_slice (unmap addr)) ttl ∷ changes))
    else if is6 (unmap addr)
    then (do
      changes ← rest
      ok (insert_record name type_aaaa (as_slice (unmap addr)) ttl ∷ changes))
    else err invalid_address

-- One question, for the zone.
unfoldable pub is_question : Bytes → List Bytes → Bool
is_question zone (name ∷ []) = bytes_eq name zone
is_question zone _ = false

-- The checks of a response, with the zone of the update.
unfoldable pub check_response : Bytes → UpdateExchange → Result WriteError (Unit {0})
unfolding is_question
check_response zone exchange_failed = err update_failed
check_response zone no_message = err no_response
check_response zone (message r) = do
  refuse_if (not (r.rcode == 0)) (update_refused r.rcode)
  refuse_if (not r.has_tsig) unauthenticated_response
  refuse_if (not r.is_response || not (r.opcode == 5) || not (is_question zone r.questions))
      mismatched_response
  ok tt

module _ (dns : Dns) (platform : Platform) where
  open dns use {fqdn, is_sub_domain, to_lower, hmac_sha256, has_port, join_host_port}

  unfoldable pub or_join : Bytes → Option Addr → Bytes
  or_join server (some addr) = join_host_port (platform.addr_string addr) (codes "53")
  or_join server none = join_host_port server (codes "53")

  unfoldable pub with_dns_port : Bytes → Bytes
  unfolding or_join trim_brackets
  with_dns_port server =
      if has_port server
      then server
      else or_join server (platform.parse_addr (trim_brackets server))

  unfoldable pub algorithm_of : Bytes → Bytes
  algorithm_of algorithm =
      let name = fqdn (to_lower algorithm) in
      if bytes_eq name (codes ".") then hmac_sha256 else name

  -- The call of the client that replaces the addresses of a hostname.
  unfoldable pub update_call : Rfc2136 → Bytes → List Addr → ℕ → Result WriteError UpdateCall
  unfolding insert_addresses with_dns_port algorithm_of
  update_call w hostname addresses ttl =
      let zone = fqdn (to_lower w.zone) in
      let name = fqdn (to_lower hostname) in
      do
        refuse_if (not (is_sub_domain zone name) || bytes_eq name zone) outside_zone
        refuse_if (is_empty w.server || is_empty w.tsig_name || is_empty w.tsig_secret)
            missing_credentials
        inserts ← insert_addresses name ttl addresses
        ok (record {
          message = record {
            zone = zone;
            changes = remove_rrset name type_a ∷ remove_rrset name type_aaaa ∷ inserts;
            key_name = fqdn w.tsig_name;
            algorithm = algorithm_of w.algorithm;
            fudge = 300;
          };
          server = with_dns_port w.server;
          secret = trim_space w.tsig_secret;
          timeout = if leb_ℤ w.timeout (pos 0) then 5000000000 else pos_part w.timeout;
        })

  -- `exchange` is the client.
  unfoldable pub replace_address_rrsets :
      (UpdateCall → UpdateExchange) → Rfc2136 → Bytes → List Addr → ℕ → Result WriteError (Unit {0})
  unfolding update_call check_response
  replace_address_rrsets exchange w hostname addresses ttl = do
    call ← update_call w hostname addresses ttl
    check_response (fqdn (to_lower w.zone)) (exchange call)
