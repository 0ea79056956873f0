-- ===== src/Consistency/Moves/Settle.antt =====
-- A claim, or a verdict that closes the job.
use ci_system.Prelude.{
  ℕ, ◌≤◌, ◌≡◌, ◌≢◌, inl, inr, true, Text, text_eq_cases, text_eq_iff, text_eq_refl, none, some,
  arith,
}
use Prim.Native.Nat.{max}
use ci_system.Models.{Job, JobAttempt, is_active}
use ci_system.Runtime.{Runtime, config, Table, get, put, get-put}
use ci_system.Consistency.Defs.{ConsistentTables, is_open, agrees}
use ci_system.Consistency.Moves.Unique.{active_unique}

-- An active attempt and its job are written at once: a claim or a verdict.
module _ ⦃rt : Runtime⦄ {jobs : Table Job} {attempts : Table JobAttempt} {n : ℕ} (m : ℕ) (k : Text)
    (a a' : JobAttempt) (j j' : Job) (c : ConsistentTables jobs attempts n) (later : n ≤ m)
    (ea : get attempts k ≡ some a) (ej : get jobs a.job_id ≡ some j)
    (act : is_active a.status ≡ true) (same_job : a'.job_id ≡ a.job_id)
    (same_number : a'.attempt_number ≡ a.attempt_number)
    (agrees' : is_active a'.status ≡ true
      → agrees j'.status a'.worker_id a'.lease_token a'.lease_expires_at ≡ true)
    (attended' : is_open j'.status ≡ true → is_active a'.status ≡ true) where
  settle_linked :
      (i : Text) (b : JobAttempt)
      → get (put attempts k a') i ≡ some b
      → get (put jobs a.job_id j') b.job_id ≢ none
  settle_linked i b eb = ground (
    arith,
    get-put attempts k i a',
    get-put jobs a.job_id b.job_id j',
    c.linked i b,
    text_eq_iff a.job_id b.job_id,
  )

  settle_agreed :
      (i : Text) (b : JobAttempt) (q : Job)
      → get (put attempts k a') i ≡ some b
      → get (put jobs a.job_id j') b.job_id ≡ some q
      → is_active b.status ≡ true
      → agrees q.status b.worker_id b.lease_token b.lease_expires_at ≡ true
  settle_agreed i b q eb eq bact = ground (
    arith,
    get-put attempts k i a',
    get-put jobs a.job_id b.job_id j',
    c.agreed i b q,
    active_unique c k i a b ea,
    text_eq_iff a.job_id b.job_id,
    text_eq_iff k i,
  )

  settle_newest :
      (h i : Text) (b d : JobAttempt)
      → get (put attempts k a') h ≡ some b
      → get (put attempts k a') i ≡ some d
      → d.job_id ≡ b.job_id
      → is_active b.status ≡ true
      → d.attempt_number ≤ b.attempt_number
  settle_newest h i b d eb ed same bact = ground (
    arith,
    get-put attempts k h a',
    get-put attempts k i a',
    c.newest h i b d,
    c.newest k i a d,
    c.newest h k b a,
  )

  settle_numbered :
      (h i : Text) (b d : JobAttempt)
      → get (put attempts k a') h ≡ some b
      → get (put attempts k a') i ≡ some d
      → d.job_id ≡ b.job_id
      → d.attempt_number ≡ b.attempt_number
      → h ≡ i
  settle_numbered h i b d eb ed same eq = ground (
    arith,
    get-put attempts k h a',
    get-put attempts k i a',
    c.numbered h i b d,
    c.numbered k i a d,
    c.numbered h k b a,
    text_eq_iff k h,
    text_eq_iff k i,
  )

  settle_counted :
      (i : Text) (b : JobAttempt)
      → get (put attempts k a') i ≡ some b
      → (1 ≤ b.attempt_number) × (b.attempt_number ≤ max 1 config.max_job_attempts)
  settle_counted i b eb = ground (arith, get-put attempts k i a', c.counted i b, c.counted k a)

  settle_attended :
      (i : Text) (q : Job)
      → get (put jobs a.job_id j') i ≡ some q
      → is_open q.status ≡ true
      → (h : Text) × (b : JobAttempt) × (get (put attempts k a') h ≡ some b)
        × (b.job_id ≡ i)
        × (is_active b.status ≡ true)
  settle_attended i q eq op = elim (text_eq_cases a.job_id i) [
    | inl (here, _) ↦ (
      k,
      a',
      ground (arith, get-put attempts k k a', text_eq_refl k),
      cc,
      ground (arith, get-put jobs a.job_id i j', text_eq_iff a.job_id i),
    )
    | inr (there, _) ↦
        let (h, b, eh, job, bact) =
          c.attended i q (ground (arith, get-put jobs a.job_id i j', text_eq_iff a.job_id i)) op in
        (h, b, ground (arith, get-put attempts k h a', text_eq_iff k h), job, bact)
  ]

  pub settle : ConsistentTables (put jobs a.job_id j') (put attempts k a') m
  settle = record {
    linked = settle_linked;
    agreed = settle_agreed;
    newest = settle_newest;
    numbered = settle_numbered;
    attended = settle_attended;
    counted = settle_counted;
    fresh_attempt = λ p le. ground (
      arith,
      get-put attempts k (rt.host.uuid p) a',
      text_eq_iff k (rt.host.uuid p),
      c.fresh_attempt p,
    );
    fresh_job = λ p le. ground (
      arith,
      get-put jobs a.job_id (rt.host.uuid p) j',
      text_eq_iff a.job_id (rt.host.uuid p),
      c.fresh_job p,
    );
  }
