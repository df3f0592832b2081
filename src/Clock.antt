-- ===== src/Clock.antt =====
-- dns/internal/clock/clock.go: the clock that is read from a file. The message texts around a cause
-- are left out; `parse_time` is `time.Parse` with the layout RFC3339Nano, an instant or the text of
-- its error.
pub mod Reports
use nixos_kaiba_network.Prelude.{
  Bool, true, false, not, ◌&&◌, Option, none, some, List, [], ◌∷◌, ◌++◌, Bytes, bytes_eq, is_empty,
  if◌then◌else◌, Result, ok, err, ◌>>=◌, ◌>>◌, refuse_if,
}
use nixos_kaiba_network.Model.{Time}
use nixos_kaiba_network.Controller.Request.{trim_space}

-- What `os.ReadFile` returns: a payload, or the text of its error.
abbrev pub Payload : Type 0
Payload = Result Bytes Bytes

-- The error of `read`, with the text of its cause.
pub data Problem : Type 0 where
  unreadable unparsable : Bytes → Problem

pub data OpenError : Type 0 where
  no_path : OpenError
  bad_file : Problem → OpenError

-- The state of a source. `last_problem` is `none` where the source's text is empty, as the text of
-- an error never is.
pub record File : Type 0 where
  pub path : Bytes
  pub has_callback : Bool
  pub last : Time
  pub last_problem : Option Problem

-- `New` returns the wall clock or the clock of a file.
pub data Source : Type 0 where
  wall_clock : Source
  file_clock : File → Source

-- `problem == f.lastProblem`: the texts differ in their first word where the problems differ in kind.
unfoldable pub is_last : Problem → Option Problem → Bool
is_last p none = false
is_last (unreadable a) (some (unreadable b)) = bytes_eq a b
is_last (unparsable a) (some (unparsable b)) = bytes_eq a b
is_last (unreadable a) (some (unparsable b)) = false
is_last (unparsable a) (some (unreadable b)) = false

unfoldable pub has_problem : Option Problem → Bool
has_problem none = false
has_problem (some p) = true

-- A call of the callback, with `none` for nil.
unfoldable pub report : Bool → Option Problem → List (Option Problem)
report calls p = if calls then p ∷ [] else []

-- `Now` after its read: the file, the calls of the callback, and the instant.
unfoldable pub now_after : File → Result Problem Time → File × List (Option Problem) × Time
unfolding is_last has_problem report
now_after f (err p) = (
  record f { last_problem = some p },
  report (not (is_last p f.last_problem) && f.has_callback) (some p),
  f.last,
)
now_after f (ok instant) = (
  record f { last = instant; last_problem = none },
  report (has_problem f.last_problem && f.has_callback) none,
  instant,
)

or_unparsable : Result Bytes Time → Result Problem Time
or_unparsable (err text) = err (unparsable text)
or_unparsable (ok instant) = ok instant

or_bad_file : Result Problem Time → Result OpenError Time
or_bad_file (err p) = err (bad_file p)
or_bad_file (ok instant) = ok instant

module _ (parse_time : Bytes → Result Bytes Time) where
  unfoldable pub read : Payload → Result Problem Time
  unfolding or_unparsable
  read (err text) = err (unreadable text)
  read (ok payload) = or_unparsable (parse_time (trim_space payload))

  -- `file_at` is `os.ReadFile`, at the time of the call.
  unfoldable pub open_file : (Bytes → Payload) → Bytes → Bool → Result OpenError File
  unfolding read or_bad_file
  open_file file_at path has_callback = do
    refuse_if (is_empty (trim_space path)) no_path
    instant ← or_bad_file (read (file_at (trim_space path)))
    ok (record {
      path = trim_space path;
      has_callback = has_callback;
      last = instant;
      last_problem = none;
    })

  unfoldable pub new_clock : (Bytes → Payload) → Bytes → Bool → Result OpenError Source
  unfolding open_file
  new_clock file_at path has_callback =
      if is_empty (trim_space path)
      then ok wall_clock
      else (do file ← open_file file_at path has_callback; ok (file_clock file))

  unfoldable pub now : File → Payload → File × List (Option Problem) × Time
  unfolding read now_after
  now f payload = now_after f (read payload)

  -- Calls of `Now`, each with what the file is at its time: the calls of the callback, in order, and
  -- the instants.
  unfoldable pub run_now : File → List Payload → List (Option Problem) × List Time
  unfolding now
  run_now f [] = ([], [])
  run_now f (payload ∷ payloads) =
      let (f', reports, instant) = now f payload in
      let (later, instants) = run_now f' payloads in (reports ++ later, instant ∷ instants)
