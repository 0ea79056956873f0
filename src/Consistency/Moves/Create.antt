-- ===== src/Consistency/Moves/Create.antt =====
-- A job is created with its first attempt, under identifiers that are drawn for them.
use ci_system.Prelude.{
  ℕ, ◌<◌, ◌≤◌, ◌≡◌, ◌≢◌, inl, inr, true, Text, text_eq_cases, text_eq_iff, text_eq_refl, none, some,
  arith,
}
use Prim.Native.Nat.{max}
use ci_system.Models.{Job, JobAttempt, is_active}
use ci_system.Runtime.{Runtime, config, Table, get, put, get-put}
use ci_system.Consistency.Defs.{ConsistentTables, is_open, agrees}

module _ ⦃rt : Runtime⦄ {jobs : Table Job} {attempts : Table JobAttempt} {n : ℕ} (m f g : ℕ)
    (b' : JobAttempt) (j' : Job) (c : ConsistentTables jobs attempts n) (job_later : n ≤ f)
    (job_drawn : f < m) (later : n ≤ g) (drawn : g < m) (own_job : b'.job_id ≡ rt.host.uuid f)
    (first : b'.attempt_number ≡ 1)
    (agrees' : agrees j'.status b'.worker_id b'.lease_token b'.lease_expires_at ≡ true)
    (starts : is_active b'.status ≡ true) where
  abbrev job_id' : Text
  job_id' = rt.host.uuid f

  abbrev id' : Text
  id' = rt.host.uuid g

  abbrev attempts' : Table JobAttempt
  attempts' = put attempts id' b'

  abbrev jobs' : Table Job
  jobs' = put jobs job_id' j'

  create_linked : (i : Text) (b : JobAttempt) → get attempts' i ≡ some b → get jobs' b.job_id ≢ none
  create_linked i b eb = ground (
    arith,
    get-put attempts id' i b',
    get-put jobs job_id' b.job_id j',
    text_eq_iff job_id' b.job_id,
    c.linked i b,
  )

  -- The new job has no earlier attempt.
  create_alone : (i : Text) (b : JobAttempt) → get attempts i ≡ some b → b.job_id ≢ job_id'
  create_alone i b eb e = ground (arith, c.linked i b, c.fresh_job f)

  create_agreed :
      (i : Text) (b : JobAttempt) (q : Job)
      → get attempts' i ≡ some b
      → get jobs' b.job_id ≡ some q
      → is_active b.status ≡ true
      → agrees q.status b.worker_id b.lease_token b.lease_expires_at ≡ true
  create_agreed i b q eb eq bact = ground (
    arith,
    get-put attempts id' i b',
    get-put jobs job_id' b.job_id j',
    text_eq_iff job_id' b.job_id,
    create_alone i b,
    c.agreed i b q,
  )

  create_newest :
      (h i : Text) (b d : JobAttempt)
      → get attempts' h ≡ some b
      → get attempts' i ≡ some d
      → d.job_id ≡ b.job_id
      → is_active b.status ≡ true
      → d.attempt_number ≤ b.attempt_number
  create_newest h i b d eb ed same bact = ground (
    arith,
    get-put attempts id' h b',
    get-put attempts id' i b',
    create_alone h b,
    create_alone i d,
    c.newest h i b d,
  )

  create_numbered :
      (h i : Text) (b d : JobAttempt)
      → get attempts' h ≡ some b
      → get attempts' i ≡ some d
      → d.job_id ≡ b.job_id
      → d.attempt_number ≡ b.attempt_number
      → h ≡ i
  create_numbered h i b d eb ed same eq = ground (
    arith,
    get-put attempts id' h b',
    get-put attempts id' i b',
    text_eq_iff id' h,
    text_eq_iff id' i,
    create_alone h b,
    create_alone i d,
    c.numbered h i b d,
  )

  create_attended :
      (i : Text) (q : Job)
      → get jobs' i ≡ some q
      → is_open q.status ≡ true
      → (h : Text) × (b : JobAttempt) × (get attempts' h ≡ some b)
        × (b.job_id ≡ i)
        × (is_active b.status ≡ true)
  create_attended i q eq op = elim (text_eq_cases job_id' i) [
    | inl (here, test) ↦ (
      id',
      b',
      ground (arith, get-put attempts id' id' b', text_eq_refl id'),
      ground arith,
      starts,
    )
    | inr (there, test) ↦
        let (h, b, eh, job, bact) = c.attended i q (ground (arith, get-put jobs job_id' i j')) op in
        (
          h,
          b,
          ground (arith, get-put attempts id' h b', text_eq_iff id' h, c.fresh_attempt g later),
          job,
          bact,
        )
  ]

  create_counted :
      (i : Text) (b : JobAttempt)
      → get attempts' i ≡ some b
      → (1 ≤ b.attempt_number) × (b.attempt_number ≤ max 1 config.max_job_attempts)
  create_counted i b eb = ground (arith, get-put attempts id' i b', c.counted i b)

  pub create : ConsistentTables jobs' attempts' m
  create = record {
    linked = create_linked;
    agreed = create_agreed;
    newest = create_newest;
    numbered = create_numbered;
    attended = create_attended;
    counted = create_counted;
    fresh_attempt = λ p le. ground (
      arith,
      get-put attempts id' (rt.host.uuid p) b',
      text_eq_iff id' (rt.host.uuid p),
      rt.host.uuid_injective g p,
      c.fresh_attempt p,
    );
    fresh_job = λ p le. ground (
      arith,
      get-put jobs job_id' (rt.host.uuid p) j',
      text_eq_iff job_id' (rt.host.uuid p),
      rt.host.uuid_injective f p,
      c.fresh_job p,
    );
  }
