-- ===== src/Execution/Tracing.antt =====
-- That `_exec` leaves evidence of what the daemon did.
use ci_system.Prelude.{
  ℕ, zero, suc, ◌≡◌, ◌⊎◌, refl, sym, ◌∙◌, ap, inl, inr, Bool, true, false, Text, Option, none, some,
  Bool-cases, Option-cases,
}
use ci_system.Prelude.Int.{ℤ, pos, negsuc}
use ci_system.Lease.{is_zero}
use ci_system.Agent.Docker.{Docker, done, Stream}
use ci_system.Agent.Executor.{
  Outcome, returned, reading, Session, drain, enough, inspect, watch, exec, shell, reported_code,
}
use ci_system.Execution.Cases.{Attempted-cases, is_done, is_error, is_broken}
use ci_system.Execution.Rule.{drain-rule}
use ci_system.Execution.Evidence.{Executed, Tried, asked, begun, ended}

zero_reported : (o : Option ℤ) → is_zero (reported_code o) ≡ true → o ≡ some (pos 0)
zero_reported none h = cc
zero_reported (some (pos zero)) h = refl
zero_reported (some (pos (suc n))) h = cc
zero_reported (some (negsuc n)) h = cc

flag :
    {code code' : ℤ} {a b : Bool}
    → ◌≡◌ {A = Outcome (Bool × ℤ)} (returned (a, code)) (returned (b, code'))
    → a ≡ b
flag h = cc

module _ ⦃dk : Docker⦄ {C : Type 0} (on_log : Text → C → C) where
  inspect-passed :
      (exec_id step : Text) (s : Session C) (code : ℤ)
      → (inspect on_log exec_id step s).0 ≡ returned (true, code)
      → dk.exec_inspect exec_id s.daemon
        ≡ (done (some (pos 0)), (inspect on_log exec_id step s).1.daemon)
  unfolding inspect
  inspect-passed exec_id step s code h =
      elim (Attempted-cases (dk.exec_inspect exec_id s.daemon).0) [
        | is_error m e ↦ absurd (let bad : false ≡ true = flag (rw (inspect, e) at h) in cc)
        | is_broken e ↦ absurd (let bad = rw (inspect, e) at h in cc)
        | is_done o e ↦
            let zero_code = zero_reported o (flag (rw (inspect, e) at h)) in
            let d' = (dk.exec_inspect exec_id s.daemon).1 in
            rw (inspect, e) (ap (λ (c : Option ℤ). (done c, d')) zero_code)
      ]

  drain-daemon :
      (fuel : ℕ) (stream : Stream) (deadline : ℕ) (step : Text) (s : Session C)
      → (drain on_log fuel stream (reading 0) deadline step s).1.daemon ≡ s.daemon
  drain-daemon fuel stream deadline step s =
      drain-rule on_log {P = λ v. v.daemon ≡ s.daemon} (λ text v h. h) (λ n v h. h) fuel stream
        (reading 0) deadline step s refl

  watch-passed :
      (exec_id : Text) (stream : Stream) (step : Text) (deadline : ℕ) (s : Session C) (code : ℤ)
      → (watch on_log exec_id stream step deadline s).0 ≡ returned (true, code)
      → dk.exec_inspect exec_id s.daemon
        ≡ (done (some (pos 0)), (watch on_log exec_id stream step deadline s).1.daemon)
  unfolding watch
  watch-passed exec_id stream step deadline s code h =
      let drained = drain on_log (enough on_log deadline s) stream (reading 0) deadline step s in
      let same = drain-daemon (enough on_log deadline s) stream deadline step s in
      elim (Option-cases drained.0) [
        | inl e ↦ absurd (let bad = rw (watch, e) at h in cc)
        | inr (in_time, e) ↦ elim (Bool-cases in_time) [
          | inl whole ↦
              rw (watch, e)
                (rw whole (
                  ap (dk.exec_inspect exec_id) (sym same)
                  ∙ inspect-passed exec_id step drained.1 code (rw whole at (rw (watch, e) at h))))
          | inr late ↦
              absurd (let bad : false ≡ true = flag (rw late at (rw (watch, e) at h)) in cc)
        ]
      ]

  pub exec-passed :
      (container cmd step : Text) (deadline : ℕ) (s : Session C) (code : ℤ)
      → (exec on_log container cmd step deadline s).0 ≡ returned (true, code)
      → Executed container cmd s.daemon (exec on_log container cmd step deadline s).1.daemon
  unfolding exec
  exec-passed container cmd step deadline s code h =
      let created = dk.exec_create container (shell cmd) s.daemon in
      elim (Attempted-cases created.0) [
        | is_error m e ↦ absurd (let bad : false ≡ true = flag (rw (exec, e) at h) in cc)
        | is_broken e ↦ absurd (let bad = rw (exec, e) at h in cc)
        | is_done exec_id e ↦
            let started = dk.exec_start exec_id created.1 in
            elim (Attempted-cases started.0) [
              | is_error m f ↦
                  absurd (let bad : false ≡ true = flag (rw f at (rw (exec, e) at h)) in cc)
              | is_broken f ↦ absurd (let bad = rw f at (rw (exec, e) at h) in cc)
              | is_done stream f ↦ record {
                exec_id = exec_id;
                stream = stream;
                created = e;
                started = f;
                inspected =
                    rw (exec, e)
                      (rw f (
                        watch-passed exec_id stream step deadline (record s { daemon = started.1 })
                          code (rw f at (rw (exec, e) at h))));
              }
            ]
      ]

  inspect-daemon :
      (exec_id step : Text) (s : Session C)
      → (inspect on_log exec_id step s).1.daemon ≡ (dk.exec_inspect exec_id s.daemon).1
  unfolding inspect
  inspect-daemon exec_id step s = elim (Attempted-cases (dk.exec_inspect exec_id s.daemon).0) [
    | is_error m e ↦ rw (inspect, e) refl
    | is_broken e ↦ rw (inspect, e) refl
    | is_done o e ↦ rw (inspect, e) refl
  ]

  watch-daemon :
      (exec_id : Text) (stream : Stream) (step : Text) (deadline : ℕ) (s : Session C)
      → ((watch on_log exec_id stream step deadline s).1.daemon ≡ s.daemon)
        ⊎ ((watch on_log exec_id stream step deadline s).1.daemon
            ≡ (dk.exec_inspect exec_id s.daemon).1)
  unfolding watch
  watch-daemon exec_id stream step deadline s =
      let drained = drain on_log (enough on_log deadline s) stream (reading 0) deadline step s in
      let same = drain-daemon (enough on_log deadline s) stream deadline step s in
      elim (Option-cases drained.0) [
        | inl e ↦ inl (rw (watch, e) same)
        | inr (in_time, e) ↦ elim (Bool-cases in_time) [
          | inl done_in_time ↦ inr (
              rw (watch, e)
                (rw done_in_time (
                  inspect-daemon exec_id step drained.1
                  ∙ ap (λ (d : dk.Daemon). (dk.exec_inspect exec_id d).1) same)))
          | inr late ↦ inl (rw (watch, e) (rw late same))
        ]
      ]

  pub exec-Tried :
      (container cmd step : Text) (deadline : ℕ) (s : Session C)
      → Tried container cmd s.daemon (exec on_log container cmd step deadline s).1.daemon
  unfolding exec
  exec-Tried container cmd step deadline s =
      let created = dk.exec_create container (shell cmd) s.daemon in
      elim (Attempted-cases created.0) [
        | is_error m e ↦ asked (rw (exec, e) refl)
        | is_broken e ↦ asked (rw (exec, e) refl)
        | is_done exec_id e ↦
            let begins = dk.exec_start exec_id created.1 in
            elim (Attempted-cases begins.0) [
              | is_error m f ↦ begun exec_id e (rw (exec, e) (rw f refl))
              | is_broken f ↦ begun exec_id e (rw (exec, e) (rw f refl))
              | is_done stream f ↦
                  elim (watch-daemon exec_id stream step deadline
                    (record s { daemon = begins.1 })) [
                      | inl same ↦ begun exec_id e (rw (exec, e) (rw f same))
                      | inr read ↦ ended exec_id e (rw (exec, e) (rw f read))
                    ]
            ]
      ]
