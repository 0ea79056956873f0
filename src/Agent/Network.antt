-- ===== src/Agent/Network.antt =====
-- The HTTP client of backend/app/worker/worker.py and what goes on between its calls, which the
-- worker uses and does not implement.
use ci_system.Prelude.{ℕ, suc, Bool, Text, Option, none, some, List, [], ◌∷◌}
use ci_system.Runtime.{Runtime}
use ci_system.World.{World}
use ci_system.Server.{Request, serve}
use ci_system.Api.Reply.{Reply, ok, no_content, error}

-- How a call ends: with an answer, or with an `httpx.HTTPError` after or before the server has
-- served it.
pub data Delivery : Type 0 where
  answered answer_lost not_sent : Delivery

pub record Network : Type 0 where
  pub delivery : ℕ → Delivery
  -- what the server serves before the `n`-th call, the heartbeats and the renewals of the worker's
  -- other threads included
  pub others : ℕ → List Request
  -- whether `_stop` is set when the `n`-th call is due
  pub stops : ℕ → Bool
  -- the text of the `PipelineParseError` for a text
  pub parse_error : Text → Text

-- The server, the number of calls so far and `log_buffer`.
pub record Client ⦃rt : Runtime⦄ : Type 0 where
  pub world : World
  pub calls : ℕ
  pub log_buffer : List Text

module _ ⦃rt : Runtime⦄ where
  unfoldable pub serve_all : List Request → World → World
  unfolding serve
  serve_all [] w = w
  serve_all (q ∷ qs) w = serve_all qs (serve q w)

module _ ⦃rt : Runtime⦄ ⦃net : Network⦄ where
  -- The world that the next call finds.
  abbrev pub found : Client → World
  found c = serve_all (net.others c.calls) c.world

  -- `self.client.post(…)`, none for an `httpx.HTTPError`
  unfoldable pub post :
      {A : Type 0} → (World → Reply A × World) → Client → Option (Reply A) × Client
  unfolding serve_all
  post handler c =
      let (reply, w) = handler (found c) in
      elim (net.delivery c.calls) [
        | answered ↦ (some reply, record c { world = w; calls = suc c.calls })
        | answer_lost ↦ (none, record c { world = w; calls = suc c.calls })
        | not_sent ↦ (none, record c { world = found c; calls = suc c.calls })
      ]

-- `raise_for_status`
abbrev pub raise_for_status : {A : Type 0} → Option (Reply A) → Option (Reply A)
raise_for_status none = none
raise_for_status (some (ok a)) = some (ok a)
raise_for_status (some no_content) = some no_content
raise_for_status (some (error status)) = none
