-- ===== src/Commands/Publishing.antt =====
-- dns/cmd/kaiba-publisher/main.go: what the command checks and the service that it builds.
use nixos_kaiba_network.Prelude.{
  ℕ, ◌≡◌, ◌<◌, ◌≤◌, subst, Bool, true, false, not, ◌||◌, Option, none, some, List, [], ◌∷◌, Bytes,
  is_empty, ltb, ◌==◌, arith, Result, ok, err, ◌>>=◌, ◌>>◌, refuse_if, >>=-eq-ok, refuse_if-eq-ok,
}
use nixos_kaiba_network.Prelude.Int.{pos}
use nixos_kaiba_network.Net.{Addr}
use nixos_kaiba_network.Controller.Request.{trim_space}
use nixos_kaiba_network.DnsWriter.{Rfc2136}
use nixos_kaiba_network.Publisher.{Writer, Service, acquired, is_valid_service}

pub data StartError : Type 0 where
  missing_options ttl_out_of_range secret_unreadable clock_failed store_failed : StartError

-- The flags, after they are parsed.
pub record PublisherOptions : Type 0 where
  pub dns_server : Bytes
  pub zone : Bytes
  pub tsig_name : Bytes
  pub tsig_algorithm : Bytes
  pub tsig_secret_file : Bytes
  pub ttl : ℕ
  pub observe_servers : List Bytes

-- A check that a server publishes the addresses of a hostname.
abbrev pub Observer : Type 0
Observer = Bytes → List Addr → Result Bytes Bool

-- There is an observer if there is a server to observe.
unfoldable pub observer_of : (List Bytes → Observer) → List Bytes → Option Observer
observer_of observe [] = none
observer_of observe (server ∷ servers) = some (observe (server ∷ servers))

or_unreadable : Option Bytes → Result StartError Bytes
or_unreadable none = err secret_unreadable
or_unreadable (some secret) = ok secret

module _ (writer : Writer) where
  -- The service, with the only leadership that there is and the default size of a batch.
  unfoldable pub service_of : (List Bytes → Observer) → PublisherOptions → Service writer
  unfolding observer_of
  service_of observe o = record {
    has_store = true;
    has_dns = true;
    leadership = acquired;
    observer = observer_of observe o.observe_servers;
    ttl = o.ttl;
    batch_size = pos 0;
  }

  -- `main` up to its passes: the DNS writer with the service. `secret_at` is `os.ReadFile` on the
  -- file of the secret, and `observe` makes an observer of servers.
  unfoldable pub publisher_command :
      (Bytes → Option Bytes)
      → Bool
      → Bool
      → (List Bytes → Observer)
      → PublisherOptions
      → Result StartError (Rfc2136 × Service writer)
  unfolding or_unreadable service_of
  publisher_command secret_at has_clock has_store observe o = do
    refuse_if (is_empty o.dns_server || is_empty o.tsig_name || is_empty o.tsig_secret_file)
        missing_options
    refuse_if (o.ttl == 0 || ltb 4294967295 o.ttl) ttl_out_of_range
    secret ← or_unreadable (secret_at o.tsig_secret_file)
    refuse_if (not has_clock) clock_failed
    refuse_if (not has_store) store_failed
    ok (
      record {
        server = o.dns_server;
        zone = o.zone;
        tsig_name = o.tsig_name;
        tsig_secret = trim_space secret;
        algorithm = o.tsig_algorithm;
        timeout = pos 0;
      },
      service_of observe o,
    )

  abbrev pub IsInRange : Service writer → Type 0
  IsInRange service =
      (is_valid_service writer service ≡ true) × (0 < service.ttl) × (service.ttl ≤ 4294967295)

  ttl-IsInRange :
      (observe : List Bytes → Observer) (o : PublisherOptions)
      → (o.ttl == 0 || ltb 4294967295 o.ttl) ≡ false
      → IsInRange (service_of observe o)
  unfolding is_valid_service service_of
  ttl-IsInRange observe o in_range = ground arith

  -- If the publisher's command starts, then its service passes its validation, and its records live
  -- from one to 4294967295 seconds.
  pub publisher_command-is_valid_service :
      (secret_at : Bytes → Option Bytes) (has_clock has_store : Bool)
      (observe : List Bytes → Observer) (o : PublisherOptions) (rfc2136 : Rfc2136)
      (service : Service writer)
      → publisher_command secret_at has_clock has_store observe o ≡ ok (rfc2136, service)
      → IsInRange service
  unfolding publisher_command
  publisher_command-is_valid_service secret_at has_clock has_store observe o rfc2136 service
        starts =
      let h1 =
        (refuse_if-eq-ok
          (is_empty o.dns_server || is_empty o.tsig_name || is_empty o.tsig_secret_file) _ _
          starts).1 in
      let (in_range, h2) = refuse_if-eq-ok (o.ttl == 0 || ltb 4294967295 o.ttl) _ _ h1 in
      let (secret, found, h3) = >>=-eq-ok (or_unreadable (secret_at o.tsig_secret_file)) _ h2 in
      let h4 = (refuse_if-eq-ok (not has_clock) _ _ h3).1 in
      let h5 = (refuse_if-eq-ok (not has_store) _ _ h4).1 in
      let same : service_of observe o ≡ service = cc in
      subst IsInRange same (ttl-IsInRange observe o in_range)
