-- ===== src/Agent/Executor.antt =====
-- backend/app/worker/docker_executor.py: a pipeline run in a container.
use ci_system.Prelude.{
  ℕ, zero, suc, ◌-◌, Bool, true, false, not, Text, codes, Option, none, some, List, [], ◌∷◌, ◌++◌,
  leb, if◌then◌else◌,
}
use ci_system.Prelude.Int.{ℤ, pos}
use ci_system.Lease.{is_zero}
use ci_system.Agent.Docker.{Docker, done, docker_error, broken, chunk, failed, finished, Stream}

pub record StepResult : Type 0 where
  pub name : Text
  pub exit_code : ℤ
  pub duration : ℕ

pub record ExecutionResult : Type 0 where
  pub exit_code : ℤ
  pub failed_step : Option Text
  pub is_permanent_failure : Bool
  pub step_results : List StepResult
  pub infra_error : Option Text

-- A function returns, an exception other than a `DockerException` leaves it, or the fuel of the
-- model is spent.
pub data Outcome (A : Type 0) : Type 0 where
  returned : A → Outcome A
  raised unfinished : Outcome A

-- The thread that reads the output: it is at an event, or has put its last item.
pub data Reader : Type 0 where
  reading : ℕ → Reader
  closed : Reader

-- `f"cd /workspace/repo && {step.run}"`
abbrev pub step_command : Text → Text
step_command command = codes "cd /workspace/repo && " ++ command

abbrev pub shell : Text → List Text
shell cmd = codes "sh" ∷ codes "-c" ∷ cmd ∷ []

-- A text on a line of its own.
abbrev pub line : Text → Text
line s = s ++ (10 ∷ [])

abbrev pub quoted : Text → Text
quoted s = 39 ∷ (s ++ (39 ∷ []))

-- What the reader's thread puts next: bytes, or none for its end. A `DockerException` becomes a
-- last chunk.
unfoldable pub next_item : ⦃dk : Docker⦄ → Stream → Reader → Option (List ℕ) × Reader
next_item stream closed = (none, closed)
next_item ⦃dk⦄ stream (reading n) = elim (stream n) [
  | chunk bytes ↦ (some bytes, reading (suc n))
  | failed e ↦ (some (dk.encode (line (codes "[infra] exec stream failed: " ++ e))), closed)
  | finished ↦ (none, closed)
]

-- `exit_code = 1` when the daemon reports none.
abbrev pub reported_code : Option ℤ → ℤ
reported_code none = pos 1
reported_code (some code) = code

abbrev pub succeeded : List StepResult → ExecutionResult
succeeded results = record {
  exit_code = pos 0;
  failed_step = none;
  is_permanent_failure = false;
  step_results = results;
  infra_error = none;
}

abbrev pub infra_failure : ℤ → Option Text → List StepResult → Text → ExecutionResult
infra_failure code failed_step results message = record {
  exit_code = code;
  failed_step = failed_step;
  is_permanent_failure = false;
  step_results = results;
  infra_error = some message;
}

abbrev pub permanent_failure : ℤ → Text → List StepResult → ExecutionResult
permanent_failure code failed_step results = record {
  exit_code = code;
  failed_step = some failed_step;
  is_permanent_failure = true;
  step_results = results;
  infra_error = none;
}

-- The daemon, the readings of the monotonic clock, and what the callback of the logs changes.
pub record Session ⦃dk : Docker⦄ (C : Type 0) : Type 0 where
  pub daemon : dk.Daemon
  pub readings : ℕ
  pub client : C

module _ ⦃dk : Docker⦄ {C : Type 0} (on_log : Text → C → C) where
  abbrev pub log : Text → Session C → Session C
  log text s = record s { client = on_log text s.client }

  -- `if chunk: on_log(chunk.decode(…))`
  unfoldable pub log_bytes : List ℕ → Session C → Session C
  log_bytes [] s = s
  log_bytes (b ∷ bytes) s = log (dk.decode (b ∷ bytes)) s

  -- The loop of `_exec`: true at the end of the output, false when the deadline has passed, none
  -- when the fuel is spent.
  unfoldable pub drain : ℕ → Stream → Reader → ℕ → Text → Session C → Option Bool × Session C
  unfolding next_item log_bytes
  drain zero stream reader deadline step_name s = (none, s)
  drain (suc fuel) stream reader deadline step_name s =
      let now = dk.monotonic s.readings in
      let s' : Session C = record s { readings = suc s.readings } in
      let (item, reader') = next_item stream reader in
      let waited = drain fuel stream reader deadline step_name s' in
      if leb deadline now
      then (
        some false,
        log
            (line
              (codes "[infra] step " ++ (quoted step_name ++ codes " exceeded pipeline timeout")))
            s',
      )
      else if not (dk.arrives s.readings)
      then waited
      else elim item [
        | none ↦ (some true, s')
        | some bytes ↦ drain fuel stream reader' deadline step_name (log_bytes bytes s')
      ]

  -- One round of the loop for each reading of the clock until the deadline has passed.
  abbrev pub enough : ℕ → Session C → ℕ
  enough deadline s = suc (dk.passes deadline - s.readings)

  -- The last handler of `_exec`.
  abbrev pub exec_failed : Text → Text → Session C → Outcome (Bool × ℤ) × Session C
  exec_failed step_name e s = (
    returned (false, pos 1),
    log (line (codes "[infra] exec failed for step " ++ (quoted step_name ++ (codes ": " ++ e)))) s,
  )

  unfoldable pub inspect : Text → Text → Session C → Outcome (Bool × ℤ) × Session C
  inspect exec_id step_name s =
      let (inspected, daemon) = dk.exec_inspect exec_id s.daemon in
      let s' : Session C = record s { daemon = daemon } in
      elim inspected [
        | broken ↦ (raised, s')
        | docker_error e ↦ exec_failed step_name e s'
        | done code ↦ (returned (is_zero (reported_code code), reported_code code), s')
      ]

  unfoldable pub watch : Text → Stream → Text → ℕ → Session C → Outcome (Bool × ℤ) × Session C
  unfolding drain inspect
  watch exec_id stream step_name deadline s =
      let (drained, s') = drain (enough deadline s) stream (reading 0) deadline step_name s in
      elim drained [
        | none ↦ (unfinished, s')
        | some in_time ↦
            if in_time then inspect exec_id step_name s' else (returned (false, pos 124), s')
      ]

  unfoldable pub exec : Text → Text → Text → ℕ → Session C → Outcome (Bool × ℤ) × Session C
  unfolding watch
  exec container cmd step_name deadline s =
      let (created, daemon) = dk.exec_create container (shell cmd) s.daemon in
      let s₁ : Session C = record s { daemon = daemon } in
      elim created [
        | broken ↦ (raised, s₁)
        | docker_error e ↦ exec_failed step_name e s₁
        | done exec_id ↦
            let (started, daemon') = dk.exec_start exec_id s₁.daemon in
            let s₂ : Session C = record s₁ { daemon = daemon' } in
            elim started [
              | broken ↦ (raised, s₂)
              | docker_error e ↦ exec_failed step_name e s₂
              | done stream ↦ watch exec_id stream step_name deadline s₂
            ]
      ]
