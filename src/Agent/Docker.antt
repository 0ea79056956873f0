-- ===== src/Agent/Docker.antt =====
-- The Docker client, the monotonic clock and the queue between threads, which the executor uses and
-- does not implement.
use ci_system.Prelude.{ℕ, ◌≤◌, ◌≡◌, Bool, true, false, Text, text_eq, Option, List, if◌then◌else◌}
use ci_system.Prelude.Int.{ℤ}

-- How a call ends: a value, a `DockerException` with its text, or any other exception.
pub data Attempted (A : Type 0) : Type 0 where
  done : A → Attempted A
  docker_error : Text → Attempted A
  broken : Attempted A

-- What the iteration over the output of a command gives next: bytes, a `DockerException`, or its
-- end, by which any other exception counts too.
pub data StreamEvent : Type 0 where
  chunk : List ℕ → StreamEvent
  failed : Text → StreamEvent
  finished : StreamEvent

abbrev pub Stream : Type 0
Stream = ℕ → StreamEvent

-- The arguments of `containers.run` that vary.
pub record RunOptions : Type 0 where
  pub image : Text
  pub command : Text
  pub name : Option Text
  pub network_mode : Text
  pub mem_limit : Text
  pub nano_cpus : ℕ

pub record Docker : Type 1 where
  pub Daemon : Type 0
  pub pull : Text → Daemon → Attempted (Unit {0}) × Daemon
  -- the id of the started container
  pub run : RunOptions → Daemon → Attempted Text × Daemon
  pub exec_create : Text → List Text → Daemon → Attempted Text × Daemon
  pub exec_start : Text → Daemon → Attempted Stream × Daemon
  pub exec_inspect : Text → Daemon → Attempted (Option ℤ) × Daemon
  pub kill : Text → Daemon → Attempted (Unit {0}) × Daemon
  pub remove : Text → Daemon → Attempted (Unit {0}) × Daemon
  -- `int(cpus * 1e9)`, the product rounded to a double and cut to an integer; `cpus` in units of 2^-1074
  pub to_nano : ℕ → ℕ
  -- `time.monotonic()`, in ticks, at its `n`-th reading
  pub monotonic : ℕ → ℕ
  -- whether the queue has an item for the `get` that follows the `n`-th reading
  pub arrives : ℕ → Bool
  -- `.decode("utf-8", errors="replace")` and `.encode()`
  pub decode : List ℕ → Text
  pub encode : Text → List ℕ
  -- time passes any moment, by the reading `passes`
  pub passes : ℕ → ℕ
  pub monotonic_mono : (m n : ℕ) → m ≤ n → monotonic m ≤ monotonic n
  pub monotonic-passes : (t : ℕ) → t ≤ monotonic (passes t)
  -- `docker ps -a`
  pub exists : Daemon → Text → Bool
  pub exists-pull : (i c : Text) (d : Daemon) → exists (pull i d).1 c ≡ exists d c
  pub exists-exec_create :
      (c : Text) (cmd : List Text) (x : Text) (d : Daemon)
      → exists (exec_create c cmd d).1 x ≡ exists d x
  pub exists-exec_start : (i x : Text) (d : Daemon) → exists (exec_start i d).1 x ≡ exists d x
  pub exists-exec_inspect : (i x : Text) (d : Daemon) → exists (exec_inspect i d).1 x ≡ exists d x
  pub exists-kill : (c x : Text) (d : Daemon) → exists (kill c d).1 x ≡ exists d x
  -- a new container has a new id
  pub run-fresh :
      (o : RunOptions) (d : Daemon) (c : Text) → (run o d).0 ≡ done c → exists d c ≡ false
  pub exists-run :
      (o : RunOptions) (d : Daemon) (c x : Text)
      → (run o d).0 ≡ done c
      → exists (run o d).1 x ≡ (if text_eq c x then true else exists d x)
  pub exists-remove :
      (c x : Text) (d : Daemon)
      → (remove c d).0 ≡ done tt
      → exists (remove c d).1 x ≡ (if text_eq c x then false else exists d x)
