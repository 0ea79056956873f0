-- ===== src/Working/Registering.antt =====
-- The registration of a worker.
use ci_system.Prelude.{
  ℕ, zero, suc, ◌+◌, ◌≤◌, ◌≡◌, ◌≢◌, ◌∙◌, ap, refl, ◌⊎◌, inl, inr, false, Text, Option, some, arith,
}
use ci_system.Prelude.Int.{pos}
use ci_system.Models.{Worker, WorkerStatus}
use ci_system.Runtime.{Runtime, get}
use ci_system.World.{World}
use ci_system.Api.Workers.{register_worker}
use ci_system.Agent.Executor.{Outcome, returned}
use ci_system.Agent.Network.{
  Network, Client, Delivery, answered, answer_lost, not_sent, found, post,
}
use ci_system.Agent.Client.{register}
use ci_system.Working.Posts.{served, post-answered, post-failed, post-calls}
use ci_system.Reporting.Outcome.{put_self}

answered-cases : (d : Delivery) → (d ≡ answered) ⊎ (d ≢ answered)
answered-cases answered = inl refl
answered-cases answer_lost = inr (λ x. cc)
answered-cases not_sent = inr (λ x. cc)

module _ ⦃rt : Runtime⦄ where
  -- The worker is online under the name.
  pub record IsRegistered (w : World) (worker_id name : Text) : Type 0 where
    pub worker : Worker
    pub stored : get w.workers worker_id ≡ some worker
    pub named : worker.name ≡ name
    pub online : worker.status ≡ WorkerStatus.online

module _ ⦃rt : Runtime⦄ ⦃net : Network⦄ where
  -- The registration has given an identifier.
  pub record Succeeds (name : Text) (r : Outcome (Option Text) × Client) : Type 0 where
    pub worker_id : Text
    pub result : r.0 ≡ returned (some worker_id)
    pub registered : IsRegistered r.1.world worker_id name

  register-answered :
      (rounds : ℕ) (name : Text) (c : Client)
      → net.stops c.calls ≡ false
      → net.delivery c.calls ≡ answered
      → register (suc rounds) name c ≡ (
        returned (some (rt.host.uuid (found c).readings)),
        served (register_worker name (pos 1)) c,
      )
  unfolding register
  register-answered rounds name c on there =
      let answer = post-answered (register_worker name (pos 1)) c there in
      rw (register, on)
        (rw answer (ap (λ x. (returned (some (rt.host.uuid (found c).readings)), x.1)) answer))

  register-Succeeds :
      (rounds : ℕ) (name : Text) (c : Client)
      → net.stops c.calls ≡ false
      → net.delivery c.calls ≡ answered
      → Succeeds name (register (suc rounds) name c)
  unfolding register_worker
  register-Succeeds rounds name c on there =
      let worker_id = rt.host.uuid (found c).readings in
      rw (register-answered rounds name c on there) (record {
        worker_id = worker_id;
        result = refl;
        registered = record {
          worker = _;
          stored = put_self (found c).workers worker_id _;
          named = refl;
          online = refl;
        };
      })

  -- The next round of a registration that has failed.
  register-failed :
      (rounds : ℕ) (name : Text) (c : Client)
      → net.stops c.calls ≡ false
      → net.delivery c.calls ≢ answered
      → register (suc rounds) name c
        ≡ register rounds name (post (register_worker name (pos 1)) c).1
  unfolding register
  register-failed rounds name c on away =
      rw (register, on) (rw (post-failed (register_worker name (pos 1)) c away) refl)

  -- When the answer of the call number `n` from now arrives, and `_stop` is not set before, the
  -- registration succeeds within `n + 1` rounds, however the calls before it end: the worker is
  -- online under its name.
  pub registration-Succeeds :
      (n : ℕ) (name : Text) (c : Client)
      → ((m : ℕ) → m ≤ n → net.stops (c.calls + m) ≡ false)
      → net.delivery (c.calls + n) ≡ answered
      → Succeeds name (register (suc n) name c)
  registration-Succeeds zero name c on there =
      register-Succeeds zero name c (ap net.stops (omega arith) ∙ on 0 (omega arith))
        (ap net.delivery (omega arith) ∙ there)
  registration-Succeeds (suc n) name c on there =
      let start : net.stops c.calls ≡ false = ap net.stops (omega arith) ∙ on 0 (omega arith) in
      let d = (post (register_worker name (pos 1)) c).1 in
      let moved : d.calls ≡ suc c.calls = post-calls (register_worker name (pos 1)) c in
      let later =
        registration-Succeeds n name d
          (λ m le. ap net.stops (omega arith) ∙ on (suc m) (omega arith))
          (ap net.delivery (omega arith) ∙ there) in
      elim (answered-cases (net.delivery c.calls)) [
        | inl now ↦ register-Succeeds (suc n) name c start now
        | inr away ↦ rw (register-failed (suc n) name c start away) later
      ]
