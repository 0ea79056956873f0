-- ===== src/Execution/Cases.antt =====
-- Splits on the results of the executor's calls.
use ci_system.Prelude.{◌≡◌, refl}
use ci_system.Agent.Docker.{Attempted, done, docker_error, broken}
use ci_system.Agent.Executor.{Outcome, returned, raised, unfinished}
use ci_system.Prelude.{Text}

pub data AttemptedCases {A : Type 0} (x : Attempted A) : Type 0 where
  is_done : (a : A) → x ≡ done a → AttemptedCases x
  is_error : (e : Text) → x ≡ docker_error e → AttemptedCases x
  is_broken : x ≡ broken → AttemptedCases x

pub Attempted-cases : {A : Type 0} (x : Attempted A) → AttemptedCases x
Attempted-cases (done a) = is_done a refl
Attempted-cases (docker_error e) = is_error e refl
Attempted-cases broken = is_broken refl

pub data OutcomeCases {A : Type 0} (x : Outcome A) : Type 0 where
  has_returned : (a : A) → x ≡ returned a → OutcomeCases x
  has_raised : x ≡ raised → OutcomeCases x
  is_unfinished : x ≡ unfinished → OutcomeCases x

pub Outcome-cases : {A : Type 0} (x : Outcome A) → OutcomeCases x
Outcome-cases (returned a) = has_returned a refl
Outcome-cases raised = has_raised refl
Outcome-cases unfinished = is_unfinished refl
