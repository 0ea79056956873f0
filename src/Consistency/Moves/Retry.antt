-- ===== src/Consistency/Moves/Retry.antt =====
-- An active attempt fails and its job is queued again with a new attempt.
use ci_system.Prelude.{
  ℕ, suc, ◌<◌, ◌≤◌, ◌≡◌, ◌≢◌, inl, inr, true, false, Text, text_eq_cases, text_eq_iff, text_eq_refl,
  none, some, arith,
}
use Prim.Native.Nat.{max}
use ci_system.Models.{Job, JobAttempt, is_active}
use ci_system.Runtime.{Runtime, config, Table, get, put, get-put}
use ci_system.Consistency.Defs.{ConsistentTables, is_open, agrees}
use ci_system.Consistency.Moves.Unique.{active_unique}

module _ ⦃rt : Runtime⦄ {jobs : Table Job} {attempts : Table JobAttempt} {n : ℕ} (m f : ℕ)
    (k : Text) (a a' b' : JobAttempt) (j j' : Job) (c : ConsistentTables jobs attempts n)
    (later : n ≤ f) (drawn : f < m) (ea : get attempts k ≡ some a) (ej : get jobs a.job_id ≡ some j)
    (act : is_active a.status ≡ true) (same_job : a'.job_id ≡ a.job_id)
    (same_number : a'.attempt_number ≡ a.attempt_number) (failed : is_active a'.status ≡ false)
    (next_job : b'.job_id ≡ a.job_id) (next_number : b'.attempt_number ≡ suc a.attempt_number)
    (in_budget : suc a.attempt_number ≤ max 1 config.max_job_attempts)
    (next_active : is_active b'.status ≡ true)
    (agrees' : agrees j'.status b'.worker_id b'.lease_token b'.lease_expires_at ≡ true) where
  abbrev id' : Text
  id' = rt.host.uuid f

  abbrev attempts' : Table JobAttempt
  attempts' = put (put attempts k a') id' b'

  abbrev jobs' : Table Job
  jobs' = put jobs a.job_id j'

  retry_linked : (i : Text) (b : JobAttempt) → get attempts' i ≡ some b → get jobs' b.job_id ≢ none
  retry_linked i b eb = ground (
    arith,
    get-put (put attempts k a') id' i b',
    get-put attempts k i a',
    get-put jobs a.job_id b.job_id j',
    text_eq_iff a.job_id b.job_id,
    c.linked i b,
  )

  retry_agreed :
      (i : Text) (b : JobAttempt) (q : Job)
      → get attempts' i ≡ some b
      → get jobs' b.job_id ≡ some q
      → is_active b.status ≡ true
      → agrees q.status b.worker_id b.lease_token b.lease_expires_at ≡ true
  retry_agreed i b q eb eq bact = ground (
    arith,
    get-put (put attempts k a') id' i b',
    get-put attempts k i a',
    get-put jobs a.job_id b.job_id j',
    text_eq_iff a.job_id b.job_id,
    text_eq_iff k i,
    c.agreed i b q,
    active_unique c k i a b ea,
  )

  retry_newest :
      (h i : Text) (b d : JobAttempt)
      → get attempts' h ≡ some b
      → get attempts' i ≡ some d
      → d.job_id ≡ b.job_id
      → is_active b.status ≡ true
      → d.attempt_number ≤ b.attempt_number
  retry_newest h i b d eb ed same bact = ground (
    arith,
    get-put (put attempts k a') id' h b',
    get-put attempts k h a',
    get-put (put attempts k a') id' i b',
    get-put attempts k i a',
    text_eq_iff k h,
    active_unique c k h a b ea,
    c.newest h i b d,
    c.newest k i a d,
    c.newest h k b a,
  )

  retry_numbered :
      (h i : Text) (b d : JobAttempt)
      → get attempts' h ≡ some b
      → get attempts' i ≡ some d
      → d.job_id ≡ b.job_id
      → d.attempt_number ≡ b.attempt_number
      → h ≡ i
  retry_numbered h i b d eb ed same eq = ground (
    arith,
    get-put (put attempts k a') id' h b',
    get-put attempts k h a',
    get-put (put attempts k a') id' i b',
    get-put attempts k i a',
    text_eq_iff k h,
    text_eq_iff k i,
    text_eq_iff id' h,
    text_eq_iff id' i,
    c.newest k i a d,
    c.newest k h a b,
    c.numbered h i b d,
    c.numbered k i a d,
    c.numbered h k b a,
  )

  retry_attended :
      (i : Text) (q : Job)
      → get jobs' i ≡ some q
      → is_open q.status ≡ true
      → (h : Text) × (b : JobAttempt) × (get attempts' h ≡ some b)
        × (b.job_id ≡ i)
        × (is_active b.status ≡ true)
  retry_attended i q eq op = elim (text_eq_cases a.job_id i) [
    | inl (here, test) ↦ (
      id',
      b',
      ground (arith, get-put (put attempts k a') id' id' b', text_eq_refl id'),
      ground arith,
      ground arith,
    )
    | inr (there, test) ↦
        let (h, b, eh, job, bact) =
          c.attended i q (ground (arith, get-put jobs a.job_id i j')) op in
        (
          h,
          b,
          ground (
            arith,
            get-put (put attempts k a') id' h b',
            get-put attempts k h a',
            text_eq_iff k h,
            text_eq_iff id' h,
            c.fresh_attempt f later,
          ),
          job,
          bact,
        )
  ]

  retry_counted :
      (i : Text) (b : JobAttempt)
      → get attempts' i ≡ some b
      → (1 ≤ b.attempt_number) × (b.attempt_number ≤ max 1 config.max_job_attempts)
  retry_counted i b eb = ground (
    arith,
    get-put (put attempts k a') id' i b',
    get-put attempts k i a',
    c.counted i b,
    c.counted k a,
  )

  retry_fresh : (p : ℕ) → m ≤ p → get attempts' (rt.host.uuid p) ≡ none
  retry_fresh p le = ground (
    arith,
    get-put (put attempts k a') id' (rt.host.uuid p) b',
    get-put attempts k (rt.host.uuid p) a',
    text_eq_iff k (rt.host.uuid p),
    text_eq_iff id' (rt.host.uuid p),
    rt.host.uuid_injective f p,
    c.fresh_attempt p,
  )

  pub retry : ConsistentTables jobs' attempts' m
  retry = record {
    linked = retry_linked;
    agreed = retry_agreed;
    newest = retry_newest;
    numbered = retry_numbered;
    attended = retry_attended;
    counted = retry_counted;
    fresh_attempt = retry_fresh;
    fresh_job = λ p le. ground (
      arith,
      get-put jobs a.job_id (rt.host.uuid p) j',
      text_eq_iff a.job_id (rt.host.uuid p),
      c.fresh_job p,
    );
  }
