-- ===== src/Agent/Pending.antt =====
-- dns/internal/agent/agent.go: the state file, which holds the key of an update until its response
-- is known, and the monad of the agent's steps.
use nixos_kaiba_network.Prelude.{
  Bool, true, false, not, ◌&&◌, ◌==◌, Option, none, some, List, [], ◌∷◌, Bytes, codes, bytes_eq,
  is_empty, if◌then◌else◌, Result, ok, err,
}
use nixos_kaiba_network.Prelude.Int.{ℤ, eq_ℤ}
use nixos_kaiba_network.Model.{Time}
use nixos_kaiba_network.Api.{DeviceState, EtagError, parse_generation_etag}
use nixos_kaiba_network.Agent.{
  AgentError, state_unreadable, directory_failed, write_failed, rename_failed, remove_failed,
  undecodable_state, invalid_etag, generations_differ, http, PutRequest, Reply, Json,
  response_error,
}
use nixos_kaiba_network.Agent.Discovery.{Interface}

pub record PendingState : Type 0 where
  pub payload_hash : Bytes
  pub key : Bytes
  pub if_match : Bytes
  pub if_none_match : Bool

is_etag : Result EtagError ℤ → Bool
is_etag (ok g) = true
is_etag (err e) = false

unfoldable pub valid_precondition : PendingState → Bool
unfolding is_etag
valid_precondition state =
    if state.if_none_match
    then is_empty state.if_match
    else if is_empty state.if_match
    then false
    else is_etag (parse_generation_etag state.if_match)

unfoldable pub apply : PendingState → PutRequest → PutRequest
apply state request =
    if state.if_none_match
    then record request { if_none_match = codes "*" ∷ [] }
    else record request { if_match = state.if_match ∷ [] }

-- A file of the agent: what the JSON decoder makes of it. Its texts are UTF-8.
pub data StateFile : Type 0 where
  undecodable : StateFile
  holds : PendingState → StateFile

-- The state file and the file beside it, `none` where there is no file.
pub record Disk : Type 0 where
  pub state_file : Option StateFile
  pub temporary : Option StateFile

-- What the surroundings of one attempt do: the steps of the file system that fail, the network
-- interfaces, what `NewIdempotencyKey` returns, and the time.
pub record Attempt : Type 0 where
  pub reading : Bool
  pub making_directory : Bool
  pub writing : Bool
  pub renaming : Bool
  pub removing : Bool
  pub interfaces : Option (List Interface)
  pub key : Option Bytes
  pub now : Time

-- The state that is used again for a payload with this hash.
unfoldable pub usable : Bytes → Option StateFile → Option PendingState
unfolding valid_precondition
usable hash none = none
usable hash (some undecodable) = none
usable hash (some (holds state)) =
    if bytes_eq state.payload_hash hash && not (is_empty state.key) && valid_precondition state
    then some state
    else none

unfoldable pub read_pending :
    Attempt → Bytes → Disk → Disk × Result AgentError (Option PendingState)
unfolding usable
read_pending a hash disk =
    (disk, if a.reading then err state_unreadable else ok (usable hash disk.state_file))

unfoldable pub write_pending : Attempt → PendingState → Disk → Disk × Result AgentError (Unit {0})
write_pending a state disk =
    if a.making_directory
    then (disk, err directory_failed)
    else if a.writing
    then (record disk { temporary = some undecodable }, err write_failed)
    else if a.renaming
    then (record disk { temporary = some (holds state) }, err rename_failed)
    else (record { state_file = some (holds state); temporary = none }, ok tt)

unfoldable pub clear_pending : Attempt → Disk → Disk × Result AgentError (Unit {0})
clear_pending a disk =
    if a.removing then (disk, err remove_failed) else (record disk { state_file = none }, ok tt)

-- The state of a status response, checked against its ETag.
unfoldable pub status_precondition :
    Bytes → Result EtagError ℤ → Option DeviceState → Result AgentError PendingState
status_precondition etag (err e) state = err invalid_etag
status_precondition etag (ok generation) none = err undecodable_state
status_precondition etag (ok generation) (some state) =
    if not (eq_ℤ state.generation generation)
    then err generations_differ
    else ok (record { payload_hash = []; key = []; if_match = etag; if_none_match = false })

unfoldable pub read_precondition : Json → Reply → Result AgentError PendingState
unfolding status_precondition
read_precondition json reply =
    if reply.status_code == 404
    then ok (record { payload_hash = []; key = []; if_match = []; if_none_match = true })
    else if not (reply.status_code == 200)
    then err (http (response_error json reply.status_code reply.body))
    else status_precondition reply.etag (parse_generation_etag reply.etag)
        (json.decode_state reply.body)

-- A step over the files of the agent and the state at the other end of the network.
abbrev pub M : Type 0 → Type 0 → Type 0
M S A = Disk × S → (Disk × S) × Result AgentError A

unfoldable pub next : {S A B : Type 0} → Result AgentError A → (A → M S B) → M S B
next (ok a) f s = f a s
next (err e) f s = (s, err e)

infixl 5 ◌>>=◌ ◌>>◌
unfoldable pub ◌>>=◌ : {S A B : Type 0} → M S A → (A → M S B) → M S B
unfolding next
◌>>=◌ m f s = next (m s).1 f (m s).0

abbrev pub ◌>>◌ : {S B : Type 0} → M S (Unit {0}) → M S B → M S B
m >> k = m >>= λ _. k

unfoldable pub from_result : {S A : Type 0} → Result AgentError A → M S A
from_result r s = (s, r)

unfoldable pub fail : {S A : Type 0} → AgentError → M S A
fail e s = (s, err e)

unfoldable pub on_disk : {S A : Type 0} → (Disk → Disk × Result AgentError A) → M S A
on_disk f (disk, s) = (((f disk).0, s), (f disk).1)

-- `_ = f()`
unfoldable pub ignore : {S : Type 0} → M S (Unit {0}) → M S (Unit {0})
ignore m s = ((m s).0, ok tt)
