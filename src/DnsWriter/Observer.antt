-- ===== src/DnsWriter/Observer.antt =====
-- dns/internal/dnswriter/dnswriter.go: the observer, which asks every authoritative server for the
-- addresses of a hostname.
use nixos_kaiba_network.Prelude.{
  ℕ, Bool, true, false, not, ◌||◌, ◌&&◌, Option, none, some, List, [], ◌∷◌, ◌++◌, map, Bytes,
  bytes_eq, bytes_lt, length, ◌==◌, if◌then◌else◌, Result, ok, err, ◌>>=◌, ◌>>◌, refuse_if,
}
use nixos_kaiba_network.Prelude.Sorted.{sort}
use nixos_kaiba_network.Net.{Addr, unmap}
use nixos_kaiba_network.Model.{Platform}
use nixos_kaiba_network.DnsWriter.{Dns, RecordType, type_a, type_aaaa, with_dns_port}

-- The address of an A or AAAA record is `none` where its bytes are no address.
pub data Content : Type 0 where
  a_record aaaa_record : Option Addr → Content
  other_record : Content

pub record Answer : Type 0 where
  pub name : Bytes
  pub content : Content

pub record Message : Type 0 where
  pub truncated : Bool
  pub rcode : ℕ
  pub authoritative : Bool
  pub answers : List Answer

pub data Transport : Type 0 where
  udp tcp : Transport

pub data ObserveError : Type 0 where
  no_servers : ObserveError
  query_failed tcp_failed still_truncated : Bytes → ObserveError
  bad_rcode : Bytes → ℕ → ObserveError

-- The index loop of `equalStrings`, on lists of one length.
unfoldable pub same_strings : List Bytes → List Bytes → Bool
same_strings [] _ = true
same_strings (a ∷ rest) [] = false
same_strings (a ∷ rest) (b ∷ others) =
    if not (bytes_eq a b) then false else same_strings rest others

unfoldable pub equal_strings : List Bytes → List Bytes → Bool
unfolding same_strings
equal_strings a b = if not (length a == length b) then false else same_strings a b

record_strings : (Addr → Bytes) → Option Addr → List Bytes
record_strings text none = []
record_strings text (some addr) = text addr ∷ []

-- What one of the two questions tells: the addresses of the answers, and whether it is authoritative.
pub record Told : Type 0 where
  pub values : List Bytes
  pub authoritative : Bool

module _ (dns : Dns) (platform : Platform) where
  open platform use {addr_string}

  unfoldable pub address_strings : List Addr → List Bytes
  address_strings addresses = sort bytes_lt (map (λ addr. addr_string (unmap addr)) addresses)

  unfoldable pub content_strings : Content → List Bytes
  unfolding record_strings
  content_strings (a_record addr) = record_strings (λ a. addr_string (unmap a)) addr
  content_strings (aaaa_record addr) = record_strings addr_string addr
  content_strings other_record = []

  -- The loop over the answers; one under another name takes the authority away.
  unfoldable pub read_answers : Bytes → Bool → List Answer → Told
  unfolding content_strings
  read_answers name authoritative [] = record { values = []; authoritative = authoritative }
  read_answers name authoritative (answer ∷ answers) =
      let named = bytes_eq answer.name name in
      let told = read_answers name (authoritative && named) answers in
      if not named
      then told
      else record told { values = content_strings answer.content ++ told.values }

  -- `ask` is the client: a transport, a server with its port, a name and a type of records.
  module _ (ask : Transport → Bytes → Bytes → RecordType → Option Message) where
    unfoldable pub over_tcp : Bytes → Option Message → Result ObserveError Message
    over_tcp server none = err (tcp_failed server)
    over_tcp server (some m) = if m.truncated then err (still_truncated server) else ok m

    unfoldable pub over_udp : Bytes → Option Message → Option Message → Result ObserveError Message
    unfolding over_tcp
    over_udp server none retry = err (query_failed server)
    over_udp server (some m) retry = if m.truncated then over_tcp server retry else ok m

    unfoldable pub query_type : Bytes → Bytes → RecordType → Result ObserveError Told
    unfolding over_udp read_answers
    query_type server hostname kind =
        let address = with_dns_port dns platform server in
        let name = dns.fqdn hostname in
        do
          m ← over_udp server (ask udp address name kind) (ask tcp address name kind)
          refuse_if (not (m.rcode == 0) && not (m.rcode == 3)) (bad_rcode server m.rcode)
          ok (read_answers name m.authoritative m.answers)

    unfoldable pub query : Bytes → Bytes → Result ObserveError Told
    unfolding query_type
    query server hostname = do
      a ← query_type server hostname type_a
      aaaa ← query_type server hostname type_aaaa
      ok (record {
        values = sort bytes_lt (a.values ++ aaaa.values);
        authoritative = a.authoritative && aaaa.authoritative;
      })

    unfoldable pub observe_servers : List Bytes → Bytes → List Bytes → Result ObserveError Bool
    unfolding query equal_strings
    observe_servers expected hostname [] = ok true
    observe_servers expected hostname (server ∷ servers) =
        let rest = observe_servers expected hostname servers in
        do
          told ← query server hostname
          if not told.authoritative || not (equal_strings told.values expected)
              then ok false
              else rest

    unfoldable pub observe_address_rrsets :
        List Bytes → Bytes → List Addr → Result ObserveError Bool
    unfolding observe_servers address_strings
    observe_address_rrsets servers hostname expected =
        if length servers == 0
        then err no_servers
        else observe_servers (address_strings expected) hostname servers
