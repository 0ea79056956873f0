-- ===== src/Api/Streams.antt =====
-- backend/app/api/websocket.py: the two streams of the dashboard. A round of a stream's loop sees
-- the server as it is at that time. A subscriber of a channel gets, in order, what is published on it
-- after the subscription.
use ci_system.Prelude.{
  ℕ, suc, Bool, Text, text_eq, Option, none, some, List, [], ◌∷◌, ◌++◌, if◌then◌else◌,
}
use ci_system.Prelude.Lists.{length, drop}
use ci_system.Models.{AttemptStatus}
use ci_system.Runtime.{Runtime, get}
use ci_system.World.{World, Event, log_chunk, status_change}

-- `channel`, and the data of a message on it.
abbrev pub log_message : Text → Event → Option Text
log_message attempt_id (log_chunk k chunk) = if text_eq k attempt_id then some chunk else none
log_message attempt_id (status_change job_id k status requeued) = none

pub record StatusPayload : Type 0 where
  pub attempt_id : Text
  pub status : AttemptStatus
  pub requeued : Bool

abbrev pub status_message : Text → Event → Option StatusPayload
status_message job_id (log_chunk k chunk) = none
status_message job_id (status_change j k status requeued) =
    if text_eq j job_id
    then some (record { attempt_id = k; status = status; requeued = requeued })
    else none

-- What was ever published on a channel, oldest first.
unfoldable pub messages : {M : Type 0} → (Event → Option M) → List Event → List M
messages channel [] = []
messages channel (event ∷ events) =
    let before = messages channel events in
    elim (channel event) [ none ↦ before | some message ↦ before ++ (message ∷ []) ]

-- What has been sent to the browser, oldest first, and the number of messages of the channel that
-- were published before the subscription or have been read.
pub record Viewer (M : Type 0) : Type 0 where
  pub sent : List M
  pub read : ℕ

module _ ⦃rt : Runtime⦄ where
  -- The stored logs, if there are any.
  unfoldable pub snapshot : Text → World → List Text
  snapshot attempt_id w = elim (get w.attempts attempt_id) [
    | none ↦ []
    | some attempt ↦ elim attempt.logs [ [] ↦ [] | c ∷ cs ↦ (c ∷ cs) ∷ [] ]
  ]

  module _ {M : Type 0} (channel : Event → Option M) where
    -- `pubsub.subscribe(channel)`
    unfoldable pub subscribe : List M → World → Viewer M
    unfolding messages
    subscribe sent w = record { sent = sent; read = length (messages channel w.published) }

    -- One round of the loop: the next message that waits, if there is one.
    unfoldable pub forward : World → Viewer M → Viewer M
    unfolding messages
    forward w v = elim (drop v.read (messages channel w.published)) [
      | [] ↦ v
      | message ∷ rest ↦ record { sent = v.sent ++ (message ∷ []); read = suc v.read }
    ]

    -- The rounds until the browser disconnects.
    unfoldable pub stream : List World → Viewer M → Viewer M
    unfolding forward
    stream [] v = v
    stream (w ∷ ws) v = stream ws (forward w v)

  -- The snapshot is taken before the subscription, so the server may have changed in between.
  unfoldable pub stream_logs : Text → World → World → List World → Viewer Text
  unfolding snapshot subscribe stream
  stream_logs attempt_id at_snapshot at_subscription ws =
      stream (log_message attempt_id) ws
        (subscribe (log_message attempt_id) (snapshot attempt_id at_snapshot) at_subscription)

  unfoldable pub stream_status : Text → World → List World → Viewer StatusPayload
  unfolding subscribe stream
  stream_status job_id at_subscription ws =
      stream (status_message job_id) ws (subscribe (status_message job_id) [] at_subscription)
