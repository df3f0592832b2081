-- ===== src/Lib.antt =====
-- The Kaiba dynamic DNS control plane: devices lease DNS address records over HTTPS, a controller
-- keeps the desired state in SQLite, and a publisher projects it to a DNS origin.
--
-- The parts and their files, by path from the root of the repository:
--   Net                        what the program uses of Go's net/netip
--   Model, Model/*             dns/internal/model/model.go
--   Address, Address/Ranges    dns/internal/address/validation.go
--   Api, Api/GenerationEtag    dns/internal/api/precondition.go and types.go
--   Store, Store/*             dns/internal/store/store.go and sqlite.go
--   Identity, Identity/Unique  dns/internal/identity/identity.go
--   Identity/Workload          dns/internal/identity/workload.go
--   Identity/Decision,         dns/internal/identity/authorization.go
--     Identity/Authorization
--   Publisher, Publisher/*     dns/internal/publisher/publisher.go
--   Controller, Controller/*   dns/internal/controller/controller.go
--   DnsWriter, DnsWriter/*     dns/internal/dnswriter/dnswriter.go
--   Agent, Agent/*             dns/internal/agent/agent.go
--   Clock, Clock/*             dns/internal/clock/clock.go
--   Cliutil, Cliutil/*         dns/internal/cliutil/env.go
--   Commands, Commands/*       main.go of dns/cmd/kaiba-agent, kaiba-controller and kaiba-publisher
--   Fleet, Fleet/*             an agent against the controller, over a network that loses responses
--   System                     requests and passes in any order over one store
--   Examples, Examples/*       tests, and each theorem at concrete values
--
-- Store/Tables has the two tables of `migrate`, the SQL statements as functions on them and the row
-- conversions; Store/Upsert is `UpsertIntent`, Store/Leases `ExpireLeases`, Store/Queries the other
-- methods, and Store/Migration `migrateIdempotencyTable`. Each method takes the tables and returns
-- the tables after it with its result. It also takes a `Faults`, which says for each call of SQLite
-- whether it fails, so that a theorem for every `Faults` covers every failure. Where the
-- code does not ask `rows.Err` why a loop over rows ended, a failure of `rows.Next` ends the loop
-- without an error (`read_rows`, `read_columns`). A transaction that
-- returns without a commit leaves the tables as they were. Store/History makes one data type of the
-- writing methods, and runs lists of them. Controller is `New`, `putEndpoints` and `getStatus`;
-- Publisher is `RunOnce`, with the DNS origin, the observer and the leadership as arguments, and
-- Publisher/Loop is `Run`, over a list of rounds.
-- Identity is `SPIFFEPolicy.Resolve`, with `strings.ToLower` as an argument; Identity/Workload is
-- `WorkloadComponents` and `ResolveRequest`, Identity/Decision the closed decoder `decodeDecision`,
-- and Identity/Authorization `AuthorizeDNS`. The verification of a certificate, the JSON tokens and
-- the times of Go's libraries are arguments.
--
-- DnsWriter is `ReplaceAddressRRsets`: it makes an update message and checks the response;
-- DnsWriter/Observer is `DNSObserver`. The client of miekg/dns is an argument, which DnsWriter/Zone
-- fills with a server that follows RFC 2136.
--
-- Agent/Update is `updateOnce`, a state-passing computation over the state file and an abstract
-- network, each of whose steps may fail, as an `Attempt` says. Agent/Pending has the state file,
-- Agent/Keys `randomID`, Agent/Discovery `DiscoverAddresses`, and Agent/Loop the loop of `Run`, over
-- a list of rounds and any update. Fleet joins Agent/Update to `put_endpoints` and `get_status`: a
-- request of the agent is a request of the controller, whose response the network may lose.
--
-- Representation. A time is its nanoseconds since the epoch, a natural number. A generation is an
-- int64, an integer whose increment wraps at 2^63. A text is the list of its bytes. An address is
-- its kind, its number and its zone. A JSON column is the value that it holds, or none where it
-- does not decode, and an empty address column is the text `[]` that the store writes. `sort.Slice`
-- is insertion sort. The text form of addresses and the digest of a list of texts are the fields of
-- `Platform`, with the laws that a valid address is read back from its text and that what is read
-- is valid. The lease duration is a natural number, as `New` refuses others.
--
-- Bounds. The theorems on generations assume that the generations of a history fit in an int64; a
-- call raises a generation by at most 2. No definition runs on fuel but `drop_prefixes`, for
-- `strings.TrimSpace`, with as many rounds as the text has bytes.
--
-- The two attempts of `UpdateOnce` and the rounds of the loop are the code's own recursion, with no
-- fuel: the second attempt never starts a third.
--
-- Not modelled: opening the database, the message texts of errors, the JSON codecs, the TLS
-- configurations of dns/internal/identity/transport.go and `NewHTTPClient`, the jitter of the
-- agent's waits, which is floating-point arithmetic on random bits, the parsing of the flags and the
-- servers of the commands, and the other languages of the repository. The outcome of decoding a body
-- is an argument.
mod Prelude
pub mod Net
pub mod Model
pub mod Address
pub mod Api
pub mod Store
pub mod Identity
pub mod Publisher
pub mod Controller
pub mod DnsWriter
pub mod System
pub mod Clock
pub mod Cliutil
pub mod Agent
pub mod Commands
pub mod Fleet
mod Examples
