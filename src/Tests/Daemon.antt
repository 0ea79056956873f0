-- ===== src/Tests/Daemon.antt =====
-- A Docker daemon and a network to run the worker on. The daemon holds the ids of its containers
-- and starts one at a time; a command prints two letters and fails when its text is `false`. The
-- clock ticks once a second.
use ci_system.Prelude.{
  ℕ, zero, suc, ◌*◌, ◌/◌, ◌^◌, ◌≤◌, ◌≡◌, sym, refl, Bool, true, false, codes, Text, text_eq,
  text_eq_iff, some, List, [], ◌∷◌, arith, Bool-cases, ltb, inl, inr, if◌then◌else◌,
}
use ci_system.Prelude.Int.{ℤ, pos}
use ci_system.Config.{second}
use ci_system.Agent.Docker.{Docker, Attempted, done, docker_error, chunk, finished, Stream}
use ci_system.Agent.Network.{Network, Delivery, answered, answer_lost}
use ci_system.Execution.Containers.{IsDependable}
use ci_system.Tests.Machine.{clock_mono}

abbrev has : Text → List Text → Bool
has c [] = false
has c (d ∷ ds) = if text_eq d c then true else has c ds

abbrev without : Text → List Text → List Text
without c [] = []
without c (d ∷ ds) = if text_eq c d then without c ds else d ∷ without c ds

pub has-without :
    (c x : Text) (ds : List Text) → has x (without c ds) ≡ (if text_eq c x then false else has x ds)
unfolding has without
has-without c x [] = ground arith
has-without c x (d ∷ ds) =
    ground (arith, has-without c x ds, text_eq_iff c x, text_eq_iff c d, text_eq_iff d x)

abbrev the_id : Text
the_id = codes "c1"

abbrev start_container : List Text → Attempted Text × List Text
start_container ds =
    if has the_id ds then (docker_error (codes "in use"), ds) else (done the_id, the_id ∷ ds)

pub start-fresh : (ds : List Text) (c : Text) → (start_container ds).0 ≡ done c → has c ds ≡ false
start-fresh ds c h = elim (Bool-cases (has the_id ds)) [
  | inl there ↦ let bad : docker_error (codes "in use") ≡ done c = rw there at h in cc
  | inr free ↦
      let good : done the_id ≡ done c = rw free at h in
      let same : the_id ≡ c = cc in rw (sym same) free
]

pub start-has :
    (ds : List Text) (c x : Text)
    → (start_container ds).0 ≡ done c
    → has x (start_container ds).1 ≡ (if text_eq c x then true else has x ds)
start-has ds c x h = elim (Bool-cases (has the_id ds)) [
  | inl there ↦ let bad : docker_error (codes "in use") ≡ done c = rw there at h in cc
  | inr free ↦
      let good : done the_id ≡ done c = rw free at h in
      let same : the_id ≡ c = cc in rw free (rw (sym same) refl)
]

-- The exit code of a command.
abbrev code_of : Text → ℤ
code_of command = if text_eq command (codes "cd /workspace/repo && false") then pos 1 else pos 0

-- Two letters, and the end.
abbrev output : Stream
output zero = chunk (104 ∷ 105 ∷ [])
output (suc n) = finished

abbrev last_text : List Text → Text
last_text [] = []
last_text (t ∷ []) = t
last_text (t ∷ u ∷ ts) = last_text (u ∷ ts)

pub time_passes : (t : ℕ) → t ≤ t * second
time_passes t = omega arith

-- The daemon, with what the queue between the threads does.
abbrev daemon_with : (ℕ → Bool) → Docker
daemon_with arrives = record {
  Daemon = List Text;
  pull = λ image ds. (done tt, ds);
  run = λ options ds. start_container ds;
  exec_create = λ c cmd ds. (done (last_text cmd), ds);
  exec_start = λ command ds. (done output, ds);
  exec_inspect = λ command ds. (done (some (code_of command)), ds);
  kill = λ c ds. (done tt, ds);
  remove = λ c ds. (done tt, without c ds);
  to_nano = λ cpus. (cpus * 10 ^ 9) / 2 ^ 1074;
  monotonic = λ n. n * second;
  arrives = arrives;
  decode = λ bytes. bytes;
  encode = λ text. text;
  passes = λ t. t;
  monotonic_mono = clock_mono;
  monotonic-passes = time_passes;
  exists = λ ds c. has c ds;
  exists-pull = λ i c ds. refl;
  exists-exec_create = λ c cmd x ds. refl;
  exists-exec_start = λ i x ds. refl;
  exists-exec_inspect = λ i x ds. refl;
  exists-kill = λ c x ds. refl;
  run-fresh = λ o ds c h. start-fresh ds c h;
  exists-run = λ o ds c x h. start-has ds c x h;
  exists-remove = λ c x ds h. has-without c x ds;
}

abbrev pub test_daemon : Docker
test_daemon = daemon_with (λ n. true)

-- Nothing comes from the queue after the checkout.
abbrev pub silent_daemon : Docker
silent_daemon = daemon_with (λ n. ltb n 3)

pub test_daemon-IsDependable : IsDependable test_daemon
test_daemon-IsDependable = record { kills = λ c ds e. cc; removes = λ c ds. refl }

-- Every call is answered, and nobody else calls.
abbrev pub test_network : Network
test_network = record {
  delivery = λ n. answered;
  others = λ n. [];
  stops = λ n. false;
  parse_error = λ text. codes "invalid";
}

-- The first answer is lost.
abbrev pub slow_network : Network
slow_network = record test_network { delivery = first_lost }
  where
    first_lost : ℕ → Delivery
    first_lost zero = answer_lost
    first_lost (suc n) = answered
