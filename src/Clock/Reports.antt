-- ===== src/Clock/Reports.antt =====
-- What a file clock reports and what it shows, over any number of calls.
use nixos_kaiba_network.Prelude.{
  ◌≤◌, ◌≡◌, refl, ap, Bool, true, false, not, Option, none, some, List, [], ◌∷◌, ◌++◌, map, arith,
  ◌&&◌, ◌∙◌, Bytes, if◌then◌else◌, Result, ok, err, subst,
}
use nixos_kaiba_network.Model.{Time}
use nixos_kaiba_network.Clock.{
  Payload, Problem, File, is_last, has_problem, report, read, now, now_after, run_now,
}

-- What a read finds: its problem, or `none` where it is well.
abbrev health : Result Problem Time → Option Problem
health (err p) = some p
health (ok instant) = none

-- Two findings in a row are the same.
abbrev is_same : Option Problem → Option Problem → Bool
is_same before (some p) = is_last p before
is_same before none = not (has_problem before)

-- The findings that differ from the one before them.
unfoldable pub changes : Option Problem → List (Option Problem) → List (Option Problem)
changes before [] = []
changes before (found ∷ rest) =
    let later = changes found rest in if is_same before found then later else found ∷ later

-- The instants of the reads that succeed.
unfoldable pub readable : List (Result Problem Time) → List Time
readable [] = []
readable (err p ∷ rest) = readable rest
readable (ok instant ∷ rest) = instant ∷ readable rest

unfoldable pub IsAscending : Time → List Time → Type 0
IsAscending from [] = Unit {0}
IsAscending from (instant ∷ rest) = (from ≤ instant) × IsAscending instant rest

now_after-last_problem :
    (f : File) (r : Result Problem Time) → (now_after f r).0.last_problem ≡ health r
unfolding now_after
now_after-last_problem f (err p) = refl
now_after-last_problem f (ok instant) = refl

now_after-has_callback :
    (f : File) (r : Result Problem Time) → (now_after f r).0.has_callback ≡ f.has_callback
unfolding now_after
now_after-has_callback f (err p) = refl
now_after-has_callback f (ok instant) = refl

report-changed :
    (same calls : Bool) (found : Option Problem) (later : List (Option Problem))
    → calls ≡ true
    → report (not same && calls) found ++ later ≡ (if same then later else found ∷ later)
unfolding report
report-changed true calls found later h = refl
report-changed false true found later h = refl
report-changed false false found later h = absurd (cc)

report-recovered :
    (before : Option Problem) (calls : Bool) (later : List (Option Problem))
    → calls ≡ true
    → report (has_problem before && calls) none ++ later
      ≡ (if not (has_problem before) then later else none ∷ later)
unfolding has_problem
report-recovered none calls later h = report-changed true calls none later h
report-recovered (some p) calls later h = report-changed false calls none later h

reported :
    (f : File) (r : Result Problem Time) (later : List (Option Problem))
    → f.has_callback ≡ true
    → (now_after f r).1 ++ later
      ≡ (if is_same f.last_problem (health r) then later else health r ∷ later)
unfolding now_after
reported f (err p) later calls =
    report-changed (is_last p f.last_problem) f.has_callback (some p) later calls
reported f (ok instant) later calls = report-recovered f.last_problem f.has_callback later calls

shown_in_order :
    (f : File) (r : Result Problem Time) (rest : List (Result Problem Time))
    → IsAscending f.last (readable (r ∷ rest))
    → (f.last ≤ (now_after f r).2)
      × ((now_after f r).0.last ≡ (now_after f r).2)
      × IsAscending (now_after f r).0.last (readable rest)
unfolding now_after IsAscending readable
shown_in_order f (err p) rest h = (omega arith, refl, h)
shown_in_order f (ok instant) rest h = (h.0, refl, h.1)

module _ (parse_time : Bytes → Result Bytes Time) where
  abbrev reads : List Payload → List (Result Problem Time)
  reads = map (read parse_time)

  -- A clock with a callback calls it exactly where a read finds something else than the read before:
  -- with each new problem, and with nil at each recovery.
  pub run_now-changes :
      (f : File) (payloads : List Payload)
      → f.has_callback ≡ true
      → (run_now parse_time f payloads).0 ≡ changes f.last_problem (map health (reads payloads))
  unfolding run_now changes now
  run_now-changes f [] calls = refl
  run_now-changes f (payload ∷ payloads) calls =
      let r = read parse_time payload in
      let f' = (now_after f r).0 in
      reported f r (run_now parse_time f' payloads).0 calls
      ∙ ap (λ later. if is_same f.last_problem (health r) then later else health r ∷ later)
          (run_now-changes f' payloads (now_after-has_callback f r ∙ calls)
            ∙ ap (λ before. changes before (map health (reads payloads)))
                (now_after-last_problem f r))

  -- Where the instants that can be read never run back, the clock never does, whatever reads fail
  -- between them.
  pub run_now-IsAscending :
      (f : File) (payloads : List Payload)
      → IsAscending f.last (readable (reads payloads))
      → IsAscending f.last (run_now parse_time f payloads).1
  unfolding run_now IsAscending readable now
  run_now-IsAscending f [] h = tt
  run_now-IsAscending f (payload ∷ payloads) h =
      let r = read parse_time payload in
      let f' = (now_after f r).0 in
      let (later, shown, rest) = shown_in_order f r (reads payloads) h in
      (
        later,
        subst (λ from. IsAscending from (run_now parse_time f' payloads).1) shown
            (run_now-IsAscending f' payloads rest),
      )
