-- ===== src/Agent/Update/Success.antt =====
-- What an update has done when it succeeds.
use nixos_kaiba_network.Prelude.{
  ℕ, ◌<◌, ◌≡◌, refl, Bool, true, false, not, ◌||◌, ◌==◌, ◌⊎◌, inl, inr, none, arith, leb,
  Bool-cases, if◌then◌else◌, Result, ok, err, refuse_if,
}
use nixos_kaiba_network.Prelude.Int.{ℤ, pos, ◌≤ℤ◌, ◌<ℤ◌, int64_max}
use nixos_kaiba_network.Model.{Platform}
use nixos_kaiba_network.Api.{DeviceState, EtagError, parse_generation_etag}
use nixos_kaiba_network.Api.GenerationEtag.{parse_generation_etag_sound}
use nixos_kaiba_network.Agent.{Agent, AgentError, Reply, Network, Json}
use nixos_kaiba_network.Agent.Discovery.{Prefixes}
use nixos_kaiba_network.Agent.Pending.{
  Disk, Attempt, clear_pending, M, next, ◌>>=◌, from_result, fail, on_disk,
}
use nixos_kaiba_network.Agent.Update.{
  has_generation, refused, checked_lease, accepted, submit, attempt, update_once,
}

module _ {S : Type 0} where
  -- From files that meet `Before`, a step that succeeds leaves files and a value that meet `After`.
  record Ensures {A : Type 0} (Before : Disk → Type 0) (m : M S A) (After : Disk → A → Type 0)
      : Type 0 where
    holds :
        (disk : Disk) (s : S) (a : A)
        → Before disk
        → (m (disk, s)).1 ≡ ok a
        → After (m (disk, s)).0.0 a

  next-Ensures :
      {A B : Type 0} (After : Disk → B → Type 0) (r : Result AgentError A) (f : A → M S B)
      (disk : Disk) (s : S) (b : B)
      → ((a : A) → r ≡ ok a → (f a (disk, s)).1 ≡ ok b → After (f a (disk, s)).0.0 b)
      → (next r f (disk, s)).1 ≡ ok b
      → After (next r f (disk, s)).0.0 b
  unfolding next
  next-Ensures After (ok a) f disk s b h e = h a refl e
  next-Ensures After (err x) f disk s b h e = cc

  then_Ensures :
      {A B : Type 0} {Before : Disk → Type 0} (Between : Disk → A → Type 0)
      {After : Disk → B → Type 0} {m : M S A} {f : A → M S B}
      → Ensures Before m Between
      → ((a : A) → Ensures (λ disk. Between disk a) (f a) After)
      → Ensures Before (m >>= f) After
  unfolding ◌>>=◌
  then_Ensures Between {After} {m} {f} h hf = record {
    holds = λ disk s b before e.
        let (disk', s') = (m (disk, s)).0 in
        next-Ensures After (m (disk, s)).1 f disk' s' b
          (λ a r e'. (hf a).holds disk' s' b (h.holds disk s a before r) e') e;
  }

  any_Ensures :
      {A : Type 0} {Before : Disk → Type 0} (m : M S A) → Ensures Before m (λ disk a. Unit {0})
  any_Ensures m = record { holds = λ disk s a before e. tt }

  if_Ensures :
      {A : Type 0} {Before : Disk → Type 0} {After : Disk → A → Type 0} (b : Bool) {m k : M S A}
      → Ensures Before m After
      → (b ≡ false → Ensures Before k After)
      → Ensures Before (if b then m else k) After
  if_Ensures true hm hk = hm
  if_Ensures false hm hk = hk refl

  -- A value that is computed without the files is known in what follows.
  result_Ensures :
      {A B : Type 0} {Before : Disk → Type 0} {After : Disk → B → Type 0} (r : Result AgentError A)
      {f : A → M S B}
      → ((a : A) → r ≡ ok a → Ensures Before (f a) After)
      → Ensures Before (from_result r >>= f) After
  unfolding ◌>>=◌ from_result
  result_Ensures {After} r {f} h = record {
    holds = λ disk s b before e.
        next-Ensures After r f disk s b (λ a known e'. (h a known).holds disk s b before e') e;
  }

  fail_Ensures :
      {A : Type 0} {Before : Disk → Type 0} (After : Disk → A → Type 0) (e : AgentError)
      → Ensures Before (fail e) After
  unfolding fail
  fail_Ensures After e = record { holds = λ disk s a before h. absurd (cc) }

  clear_Ensures :
      {Before : Disk → Type 0} (a : Attempt)
      → Ensures Before (on_disk (clear_pending a)) (λ disk u. disk.state_file ≡ none)
  unfolding on_disk clear_pending
  clear_Ensures a = record {
    holds = λ disk s u before e. elim (Bool-cases a.removing) [
      | inl r ↦ absurd (let e' = rw r at e in cc)
      | inr r ↦ simp r refl
    ];
  }

same_generation : (g : ℤ) (r : Result EtagError ℤ) → has_generation g r ≡ true → r ≡ ok g
unfolding has_generation
same_generation g (ok k) h = ground arith
same_generation g (err e) h = cc

passed : {E : Type 0} (b : Bool) (e : E) → refuse_if b e ≡ ok tt → b ≡ false
passed true e h = cc
passed false e h = refl

-- A generation that an ETag can name.
abbrev pub IsGeneration : ℤ → Type 0
IsGeneration g = (pos 0 <ℤ g) × (g ≤ℤ pos int64_max)

-- No state file is left, and the state has a generation, and a lease that runs at one of the times.
abbrev pub IsSettled : (ℕ → Type 0) → Disk → DeviceState → Type 0
IsSettled Runs disk state =
    (disk.state_file ≡ none) × IsGeneration state.generation × Runs state.lease_expires_at

module _ (platform : Platform) (prefixes : Prefixes) (json : Json) (agent : Agent)
    (network : Network) (Runs : ℕ → Type 0) (stale : AgentError → M network.State DeviceState)
    (a : Attempt)
    (stale-settles : (Before : Disk → Type 0) (e : AgentError)
      → Ensures Before (stale e) (IsSettled Runs))
    (runs : (lease : ℕ) → a.now < lease → Runs lease) where
  refused-settles :
      (Before : Disk → Type 0) (reply : Reply)
      → Ensures Before (refused platform prefixes json agent network stale a reply) (IsSettled Runs)
  unfolding refused
  refused-settles Before reply =
      if_Ensures (reply.status_code == 409)
        (then_Ensures _ (any_Ensures _) (λ _. fail_Ensures (IsSettled Runs) _))
        (λ _.
          if_Ensures (reply.status_code == 412)
            (then_Ensures _ (any_Ensures _) (λ _. stale-settles _ _))
            (λ _. fail_Ensures (IsSettled Runs) _))

  leased :
      (state : DeviceState)
      → IsGeneration state.generation
      → (state.lease_expires_at == 0 || leb state.lease_expires_at a.now) ≡ false
      → Ensures {S = network.State}
          (λ disk. disk.state_file ≡ none)
          (from_result (ok state))
          (IsSettled Runs)
  unfolding from_result
  leased state named live = record {
    holds = λ disk s found before e.
        let same : state ≡ found = ground arith in
        rw (← same) (before, named, runs state.lease_expires_at (ground arith));
  }

  accepted-settles :
      (Before : Disk → Type 0) (reply : Reply)
      → Ensures Before
          (accepted platform prefixes json agent network stale a reply)
          (IsSettled Runs)
  unfolding accepted checked_lease
  accepted-settles Before reply = result_Ensures _ (λ state _. result_Ensures _ (λ u checked.
      let etag = same_generation state.generation (parse_generation_etag reply.etag) (
        ground (
          arith,
          passed (not (has_generation state.generation (parse_generation_etag reply.etag))) _
              checked,
        )) in
      let (positive, fits, _) = parse_generation_etag_sound reply.etag state.generation etag in
      then_Ensures _ (clear_Ensures a)
        (λ _. if_Ensures _ (stale-settles _ _) (λ live. leased state (positive, fits) live))))

  attempt-settles :
      (Before : Disk → Type 0)
      → Ensures Before (attempt platform prefixes json agent network stale a) (IsSettled Runs)
  unfolding attempt submit
  attempt-settles Before = result_Ensures _ (λ addresses _. result_Ensures _ (λ u _.
      then_Ensures _ (any_Ensures _) (λ pending.
        then_Ensures _ (any_Ensures _)
          (λ reply. if_Ensures _ (refused-settles _ reply) (λ _. accepted-settles _ reply)))))

module _ (platform : Platform) (prefixes : Prefixes) (json : Json) (agent : Agent)
    (network : Network) where
  -- Whatever the network and the file system do, if an update succeeds, then no state file is left,
  -- so that the next update takes a new key; and the state that it returns has a positive int64
  -- generation and a lease that runs out only after the time of one of its two attempts.
  pub update_once-IsSettled :
      (first again : Attempt) (disk : Disk) (s : network.State) (state : DeviceState)
      → (update_once platform prefixes json agent network first again (disk, s)).1 ≡ ok state
      → IsSettled
          (λ lease. (first.now < lease) ⊎ (again.now < lease))
          (update_once platform prefixes json agent network first again (disk, s)).0.0
          state
  unfolding update_once
  update_once-IsSettled first again disk s state e =
      (attempt-settles platform prefixes json agent network Runs
          (λ _. attempt platform prefixes json agent network fail again) first
          (λ Before _.
            attempt-settles platform prefixes json agent network Runs fail again
              (λ Before' e'. fail_Ensures (IsSettled Runs) e') (λ lease live. inr live) Before)
          (λ lease live. inl live) (λ d. Unit {0})).holds
        disk s state tt e
    where
      Runs : ℕ → Type 0
      Runs lease = (first.now < lease) ⊎ (again.now < lease)
