-- ===== src/Working/Streaming.antt =====
-- The logs of an attempt while its worker streams them.
use ci_system.Prelude.{
  ℕ, ◌≡◌, ◌≢◌, refl, sym, ◌∙◌, ap, true, false, not, ◌||◌, text_eq_refl, Text, Option, some, List,
  [], ◌∷◌, ◌++◌, append-nil, append_assoc,
}
use ci_system.Models.{JobAttempt, is_active}
use ci_system.Pipeline.{Pipeline}
use ci_system.Runtime.{Runtime, get}
use ci_system.World.{World}
use ci_system.Lease.{holds_token}
use ci_system.Api.Attempts.{append_log}
use ci_system.Api.Workers.{LeaseClaim}
use ci_system.Agent.Docker.{Docker}
use ci_system.Agent.Executor.{Session}
use ci_system.Agent.Network.{Network, Client, not_sent, found, serve_all}
use ci_system.Agent.Client.{on_log, join, with_token}
use ci_system.Execution.Clients.{run_pipeline-client}
use ci_system.Reporting.Outcome.{put_self}
use ci_system.Working.Delivering.{ran, fresh}
use ci_system.Working.Posts.{post-served}

join-snoc :
    (chunks : List Text) (chunk : Text) → join (chunks ++ (chunk ∷ [])) ≡ join chunks ++ chunk
join-snoc [] chunk = append-nil chunk
join-snoc (x ∷ xs) chunk =
    ap (λ l. x ++ l) (join-snoc xs chunk) ∙ sym (append_assoc x (join xs) chunk)

module _ ⦃rt : Runtime⦄ where
  -- The attempt is active under the token, and has these logs.
  pub record Streamed (w : World) (k t logs : Text) : Type 0 where
    pub row : JobAttempt
    pub stored : get w.attempts k ≡ some row
    pub token : row.lease_token ≡ some t
    pub active : is_active row.status ≡ true
    pub written : row.logs ≡ logs

  -- The others leave the token and the logs of the attempt alone, and keep it active: heartbeats,
  -- renewals of its lease and all that concerns other jobs.
  abbrev pub IsQuiet : Network → Text → Type 0
  IsQuiet net k =
      (n : ℕ) (w : World) (t logs : Text)
      → Streamed w k t logs
      → Streamed (serve_all (net.others n) w) k t logs

  pub append_log-Streamed :
      (k t chunk logs : Text) (w : World)
      → Streamed w k t logs
      → Streamed (append_log k t chunk w).1 k t (logs ++ chunk)
  unfolding append_log
  append_log-Streamed k t chunk logs w h =
      let holds : (not (holds_token h.row.lease_token t) || not (is_active h.row.status)) ≡ false =
        rw (h.token, text_eq_refl t, h.active) refl in
      rw (append_log, h.stored)
        (rw holds (record {
          row = record h.row { logs = h.row.logs ++ chunk };
          stored = put_self w.attempts k _;
          token = h.token;
          active = h.active;
          written = ap (λ l. l ++ chunk) h.written;
        }))

module _ ⦃rt : Runtime⦄ ⦃net : Network⦄ where
  -- The stored logs are those before and what the buffer holds.
  abbrev InStep : Text → Text → Text → Client → Type 0
  InStep k t old c = Streamed c.world k t (old ++ join c.log_buffer)

  on_log-InStep :
      (k t old : Text) (token : Option Text) (chunk : Text) (c : Client)
      → ((n : ℕ) → net.delivery n ≢ not_sent)
      → IsQuiet net k
      → token ≡ some t
      → InStep k t old c
      → InStep k t old (on_log k token chunk c)
  unfolding on_log
  on_log-InStep k t old token chunk c sent quiet same h =
      let c' : Client = record c { log_buffer = c.log_buffer ++ (chunk ∷ []) } in
      let send = with_token token (λ u. append_log k u chunk) in
      let there = quiet c.calls c.world t (old ++ join c.log_buffer) h in
      let longer : old ++ join (c.log_buffer ++ (chunk ∷ []))
          ≡ (old ++ join c.log_buffer) ++ chunk =
        ap (λ l. old ++ l) (join-snoc c.log_buffer chunk) ∙ sym (append_assoc old _ chunk) in
      rw (on_log, post-served send c' (sent c.calls))
        (rw (longer, same) (append_log-Streamed k t chunk _ (found c) there))

module _ ⦃rt : Runtime⦄ ⦃net : Network⦄ ⦃dk : Docker⦄ where
  -- When every call reaches the server and nobody else disturbs the attempt, the logs that are
  -- stored at the end of an execution are those before it and every chunk, each once, in order.
  pub logs-Streamed :
      (lease : LeaseClaim) (s : Session Client) (p : Pipeline) (t old : Text)
      → ((n : ℕ) → net.delivery n ≢ not_sent)
      → IsQuiet net lease.attempt_id
      → lease.lease_token ≡ some t
      → Streamed s.client.world lease.attempt_id t old
      → let c = (ran lease p s).1.client in
        Streamed c.world lease.attempt_id t (old ++ join c.log_buffer)
  logs-Streamed lease s p t old sent quiet same h =
      run_pipeline-client (on_log lease.attempt_id lease.lease_token)
        (InStep lease.attempt_id t old)
        (λ chunk c. on_log-InStep lease.attempt_id t old lease.lease_token chunk c sent quiet same)
        p lease.repo_url lease.commit_sha lease.attempt_id (fresh s) (rw (append-nil old) h)
