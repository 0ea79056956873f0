-- ===== src/Working/Posts.antt =====
-- One call of the worker.
use ci_system.Prelude.{suc, ◌≡◌, ◌≢◌, refl, none, some}
use ci_system.Runtime.{Runtime}
use ci_system.World.{World}
use ci_system.Api.Reply.{Reply}
use ci_system.Agent.Network.{
  Network, Client, Delivery, answered, answer_lost, not_sent, found, post,
}

module _ ⦃rt : Runtime⦄ ⦃net : Network⦄ {A : Type 0} (handler : World → Reply A × World)
    (c : Client) where
  -- The client after a call that the server has served.
  abbrev pub served : Client
  served = record c { world = (handler (found c)).1; calls = suc c.calls }

  pub post-answered :
      net.delivery c.calls ≡ answered → post handler c ≡ (some (handler (found c)).0, served)
  unfolding post
  post-answered e = rw (post, e) refl

  pub post-served : net.delivery c.calls ≢ not_sent → (post handler c).1 ≡ served
  unfolding post
  post-served sent = goes (net.delivery c.calls) refl
    where
      goes : (d : Delivery) → net.delivery c.calls ≡ d → (post handler c).1 ≡ served
      goes answered e = rw (post, e) refl
      goes answer_lost e = rw (post, e) refl
      goes not_sent e = absurd (sent e)

  pub post-calls : (post handler c).1.calls ≡ suc c.calls
  unfolding post
  post-calls = goes (net.delivery c.calls) refl
    where
      goes : (d : Delivery) → net.delivery c.calls ≡ d → (post handler c).1.calls ≡ suc c.calls
      goes answered e = rw (post, e) refl
      goes answer_lost e = rw (post, e) refl
      goes not_sent e = rw (post, e) refl

  pub post-failed : net.delivery c.calls ≢ answered → (post handler c).0 ≡ none
  unfolding post
  post-failed away = goes (net.delivery c.calls) refl
    where
      goes : (d : Delivery) → net.delivery c.calls ≡ d → (post handler c).0 ≡ none
      goes answered e = absurd (away e)
      goes answer_lost e = rw (post, e) refl
      goes not_sent e = rw (post, e) refl
