-- ===== src/Reporting/Refusals.antt =====
-- The reports that the route refuses, with what they leave behind.
use ci_system.Prelude.{
  suc, ◌≡◌, ◌⊎◌, refl, ap, inl, inr, Bool, true, Text, text_eq, text_eq_iff, Option, none, some, [],
  ◌∷◌, ◌++◌, arith, Option-cases, Bool-cases,
}
use ci_system.Models.{JobAttempt, AttemptStatus}
use ci_system.Runtime.{Runtime, get, get-put}
use ci_system.World.{World}
use ci_system.Lease.{holds_token, complete_attempt}
use ci_system.Reaper.{reap_expired_leases, is_expired}
use ci_system.Api.Attempts.{AttemptReport, complete, store_tail, answer_report}
use ci_system.Api.Reply.{ok, error}
use ci_system.Consistency.{Consistent}
use ci_system.Consistency.Attempts.{store_tail-Consistent}
use ci_system.Reporting.Acceptance.{Ignored, refused_report-Ignored}
use ci_system.Reporting.Late.{expired_lease_swept, ended_report_refused}
use ci_system.Reporting.Outcome.{status_of, put_self}

module _ ⦃rt : Runtime⦄ where
  -- The row of the reported attempt, with its last chunk appended.
  pub record Extends (k : Text) (tail : Option Text) (w w' : World) : Type 0 where
    pub row : JobAttempt
    pub chunk : Text
    pub given : tail ≡ some chunk
    pub before : get w.attempts k ≡ some row
    pub after : get w'.attempts k ≡ some (record row { logs = row.logs ++ chunk })

  -- At most the logs of the attempt have grown, by the last chunk, and the clock has been read.
  pub record OnlyTail (k : Text) (tail : Option Text) (w w' : World) : Type 0 where
    pub rest : w' ≡ record w { attempts = w'.attempts; readings = w'.readings }
    pub rows : (i : Text) → (get w'.attempts i ≡ get w.attempts i) ⊎ ((i ≡ k) × Extends k tail w w')

  nothing : (k : Text) (tail : Option Text) (w : World) → OnlyTail k tail w w
  nothing k tail w = record { rest = refl; rows = λ i. inl refl }

  store_tail-OnlyTail :
      (k t : Text) (tail : Option Text) (w : World) → OnlyTail k tail w (store_tail k t tail w)
  unfolding store_tail
  store_tail-OnlyTail k t none w = nothing k none w
  store_tail-OnlyTail k t (some []) w = nothing k (some []) w
  store_tail-OnlyTail k t (some (c ∷ cs)) w = elim (Option-cases (get w.attempts k)) [
    | inl e ↦ rw (store_tail, e) (nothing k (some (c ∷ cs)) w)
    | inr (a, e) ↦ elim (Bool-cases (holds_token a.lease_token t)) [
      | inr other ↦ rw (store_tail, e) (rw other (nothing k (some (c ∷ cs)) w))
      | inl holds ↦
          rw (store_tail, e)
            (rw holds (record {
              rest = refl;
              rows = λ i. elim (Bool-cases (text_eq k i)) [
                | inr differs ↦ inl (
                    ground (arith, get-put w.attempts k i (record a { logs = a.logs ++ (c ∷ cs) })))
                | inl same ↦ inr (
                  ground (arith, text_eq_iff k i),
                  record {
                    row = a;
                    chunk = c ∷ cs;
                    given = refl;
                    before = e;
                    after = put_self w.attempts k _;
                  },
                )
              ];
            }))
    ]
  ]

  -- A report that is ignored is answered with 409.
  Ignored-OnlyTail :
      (k t : Text) (p : AttemptReport) (w : World)
      → Ignored
          (store_tail k t p.logs_tail w)
          (complete_attempt k t p.report (store_tail k t p.logs_tail w))
      → ((complete k t p w).0 ≡ error 409) × OnlyTail k p.logs_tail w (complete k t p w).1
  unfolding complete answer_report
  Ignored-OnlyTail k t p w (inl same) =
      rw (complete, same) (refl, store_tail-OnlyTail k t p.logs_tail w)
  Ignored-OnlyTail k t p w (inr later) =
      let stored = store_tail-OnlyTail k t p.logs_tail w in
      let w' = store_tail k t p.logs_tail w in
      rw (complete, later)
        (
          refl,
          record {
            rest = ap (λ (v : World). record v { readings = suc w'.readings }) stored.rest;
            rows = λ i. elim (stored.rows i) [
              | inl same ↦ inl same
              | inr (at, x) ↦ inr (
                at,
                record {
                  row = x.row;
                  chunk = x.chunk;
                  given = x.given;
                  before = x.before;
                  after = x.after;
                },
              )
            ];
          },
        )

  refused : (r : Option (Text × Bool) × World) → (answer_report r).0 ≡ error 409 → r.0 ≡ none
  unfolding answer_report
  refused (none, w) h = refl
  refused (some (k, q), w) h = elim (Option-cases (get w.attempts k)) [
    | inl e ↦ let bad : ok tt ≡ error 409 = rw (answer_report, e) at h in cc
    | inr (a, e) ↦ let bad : ok tt ≡ error 409 = rw (answer_report, e) at h in cc
  ]

  -- In a consistent world, a report that the route answers with 409 changes no row but that of its
  -- attempt, where it appends its last chunk to the logs at most, and nothing else of the world but
  -- the number of clock readings.
  pub refused_report-OnlyTail :
      (k t : Text) (p : AttemptReport) (w : World)
      → Consistent w
      → (complete k t p w).0 ≡ error 409
      → OnlyTail k p.logs_tail w (complete k t p w).1
  unfolding complete
  refused_report-OnlyTail k t p w c h =
      let w' = store_tail k t p.logs_tail w in
      (Ignored-OnlyTail k t p w (
        refused_report-Ignored k t p.report w' (store_tail-Consistent k t p.logs_tail w c)
          (refused (complete_attempt k t p.report w') h))).1

  store_tail-status :
      (k t : Text) (tail : Option Text) (w : World) (s : AttemptStatus)
      → status_of (get w.attempts k) ≡ some s
      → status_of (get (store_tail k t tail w).attempts k) ≡ some s
  store_tail-status k t tail w s h =
      let only = store_tail-OnlyTail k t tail w in
      elim (only.rows k) [
        | inl same ↦ rw same h
        | inr (at, x) ↦
            let before : some x.row.status ≡ some s = rw x.before at h in rw x.after before
      ]

  -- In a consistent world, a report of an attempt whose lease expired is answered with 409 after
  -- the sweep, whatever token it has: it appends its last chunk to the logs of that attempt at
  -- most, and changes nothing else of the world but the number of clock readings.
  pub late_report_refused :
      (k t : Text) (p : AttemptReport) (a : JobAttempt) (w : World)
      → Consistent w
      → get w.attempts k ≡ some a
      → is_expired (rt.host.clock w.readings) a ≡ true
      → let swept = (reap_expired_leases w).1 in
        ((complete k t p swept).0 ≡ error 409)
        × OnlyTail k p.logs_tail swept (complete k t p swept).1
  late_report_refused k t p a w c ea late =
      let swept = (reap_expired_leases w).1 in
      Ignored-OnlyTail k t p swept (
        inl (
          ended_report_refused k t p.report (store_tail k t p.logs_tail swept) (
            store_tail-status k t p.logs_tail swept AttemptStatus.infra_error
              (expired_lease_swept k a w c ea late))))
