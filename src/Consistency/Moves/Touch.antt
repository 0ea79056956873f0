-- ===== src/Consistency/Moves/Touch.antt =====
-- One attempt is written, and the job stays as it is.
use ci_system.Prelude.{
  ℕ, ◌≤◌, ◌≡◌, ◌≢◌, inl, inr, true, Text, text_eq_cases, text_eq_iff, text_eq_refl, none, some,
  arith,
}
use Prim.Native.Nat.{max}
use ci_system.Models.{Job, JobAttempt, is_active}
use ci_system.Runtime.{Runtime, config, Table, get, put, get-put}
use ci_system.Consistency.Defs.{ConsistentTables, is_open, agrees}

module _ ⦃rt : Runtime⦄ {jobs : Table Job} {attempts : Table JobAttempt} {n : ℕ} (m : ℕ) (k : Text)
    (a a' : JobAttempt) (c : ConsistentTables jobs attempts n) (later : n ≤ m)
    (ea : get attempts k ≡ some a) (same_job : a'.job_id ≡ a.job_id)
    (same_number : a'.attempt_number ≡ a.attempt_number)
    (same_activity : is_active a'.status ≡ is_active a.status)
    (agrees' : (j : Job)
      → get jobs a.job_id ≡ some j
      → is_active a.status ≡ true
      → agrees j.status a.worker_id a.lease_token a.lease_expires_at ≡ true
      → agrees j.status a'.worker_id a'.lease_token a'.lease_expires_at ≡ true) where
  touch_linked :
      (i : Text) (b : JobAttempt) → get (put attempts k a') i ≡ some b → get jobs b.job_id ≢ none
  touch_linked i b eb = ground (arith, get-put attempts k i a', c.linked i b, c.linked k a)

  touch_agreed :
      (i : Text) (b : JobAttempt) (q : Job)
      → get (put attempts k a') i ≡ some b
      → get jobs b.job_id ≡ some q
      → is_active b.status ≡ true
      → agrees q.status b.worker_id b.lease_token b.lease_expires_at ≡ true
  touch_agreed i b q eb eq bact =
      ground (arith, get-put attempts k i a', c.agreed i b q, c.agreed k a q, agrees' q)

  touch_newest :
      (h i : Text) (b d : JobAttempt)
      → get (put attempts k a') h ≡ some b
      → get (put attempts k a') i ≡ some d
      → d.job_id ≡ b.job_id
      → is_active b.status ≡ true
      → d.attempt_number ≤ b.attempt_number
  touch_newest h i b d eb ed same bact = ground (
    arith,
    get-put attempts k h a',
    get-put attempts k i a',
    c.newest h i b d,
    c.newest k i a d,
    c.newest h k b a,
  )

  touch_numbered :
      (h i : Text) (b d : JobAttempt)
      → get (put attempts k a') h ≡ some b
      → get (put attempts k a') i ≡ some d
      → d.job_id ≡ b.job_id
      → d.attempt_number ≡ b.attempt_number
      → h ≡ i
  touch_numbered h i b d eb ed same eq = ground (
    arith,
    get-put attempts k h a',
    get-put attempts k i a',
    c.numbered h i b d,
    c.numbered k i a d,
    c.numbered h k b a,
    text_eq_iff k h,
    text_eq_iff k i,
  )

  touch_attended :
      (i : Text) (q : Job)
      → get jobs i ≡ some q
      → is_open q.status ≡ true
      → (h : Text) × (b : JobAttempt) × (get (put attempts k a') h ≡ some b)
        × (b.job_id ≡ i)
        × (is_active b.status ≡ true)
  touch_attended i q eq op =
      let (h, b, eh, job, bact) = c.attended i q eq op in
      elim (text_eq_cases k h) [
        | inl (here, test) ↦ (
          k,
          a',
          ground (arith, get-put attempts k k a', text_eq_refl k),
          ground arith,
          ground arith,
        )
        | inr (there, test) ↦ (h, b, ground (arith, get-put attempts k h a'), job, bact)
      ]

  touch_counted :
      (i : Text) (b : JobAttempt)
      → get (put attempts k a') i ≡ some b
      → (1 ≤ b.attempt_number) × (b.attempt_number ≤ max 1 config.max_job_attempts)
  touch_counted i b eb = ground (arith, get-put attempts k i a', c.counted i b, c.counted k a)

  pub touch : ConsistentTables jobs (put attempts k a') m
  touch = record {
    linked = touch_linked;
    agreed = touch_agreed;
    newest = touch_newest;
    numbered = touch_numbered;
    attended = touch_attended;
    counted = touch_counted;
    fresh_attempt = λ p le. ground (
      arith,
      get-put attempts k (rt.host.uuid p) a',
      text_eq_iff k (rt.host.uuid p),
      c.fresh_attempt p,
    );
    fresh_job = λ p le. c.fresh_job p (omega arith);
  }
