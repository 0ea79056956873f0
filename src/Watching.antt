-- ===== src/Watching.antt =====
-- The log stream of the dashboard beside the logs that the server stores.
use ci_system.Prelude.{
  ℕ, zero, suc, ◌≤◌, ◌≡◌, refl, sym, ◌∙◌, ap, false, not, ◌||◌, text_eq_refl, Text, Option, List,
  [], ◌∷◌, ◌++◌, map, append-nil, append_assoc, arith,
}
use ci_system.Prelude.Lists.{length, drop}
use ci_system.Models.{is_active}
use ci_system.Runtime.{Runtime}
use ci_system.World.{World, Event, log_chunk}
use ci_system.Lease.{holds_token}
use ci_system.Server.{Request, serve, appends_log}
use ci_system.Api.Attempts.{append_log}
use ci_system.Api.Streams.{
  log_message, messages, Viewer, snapshot, subscribe, forward, stream, stream_logs,
}
use ci_system.Agent.Network.{serve_all}
use ci_system.Agent.Client.{join}
use ci_system.Working.Streaming.{Streamed, append_log-Streamed}

-- The same world, `n` times.
abbrev pub repeat {ℓ} : {A : Type ℓ} → ℕ → A → List A
repeat zero a = []
repeat (suc n) a = a ∷ repeat n a

drop-length-append : {A : Type 0} (xs ys : List A) → drop (length xs) (xs ++ ys) ≡ ys
drop-length-append [] ys = refl
drop-length-append (x ∷ xs) ys = drop-length-append xs ys

drop-suc :
    {A : Type 0} (n : ℕ) (xs : List A) (y : A) (ys : List A)
    → drop n xs ≡ y ∷ ys
    → drop (suc n) xs ≡ ys
drop-suc zero [] y ys h = cc
drop-suc zero (x ∷ xs) y ys h = cc
drop-suc (suc n) [] y ys h = cc
drop-suc (suc n) (x ∷ xs) y ys h = drop-suc n xs y ys h

join-append : (xs ys : List Text) → join (xs ++ ys) ≡ join xs ++ join ys
join-append [] ys = refl
join-append (x ∷ xs) ys =
    ap (λ l. x ++ l) (join-append xs ys) ∙ sym (append_assoc x (join xs) (join ys))

module _ ⦃rt : Runtime⦄ where
  module _ {M : Type 0} (channel : Event → Option M) (w : World) where
    forward-empty :
        (v : Viewer M) → drop v.read (messages channel w.published) ≡ [] → forward channel w v ≡ v
    unfolding forward
    forward-empty v h = rw (forward, h) refl

    forward-message :
        (v : Viewer M) (y : M) (ys : List M)
        → drop v.read (messages channel w.published) ≡ y ∷ ys
        → forward channel w v ≡ record { sent = v.sent ++ (y ∷ []); read = suc v.read }
    unfolding forward
    forward-message v y ys h = rw (forward, h) refl

    -- Rounds of the loop that see the same world, as many as messages wait, or more.
    stream-repeat :
        (n : ℕ) (v : Viewer M) (ys : List M)
        → drop v.read (messages channel w.published) ≡ ys
        → length ys ≤ n
        → (stream channel (repeat n w) v).sent ≡ v.sent ++ ys
    unfolding stream
    stream-repeat zero v [] h le = sym (append-nil v.sent)
    stream-repeat zero v (y ∷ ys) h le = absurd (omega arith)
    stream-repeat (suc n) v [] h le =
        ap (λ u. (stream channel (repeat n w) u).sent) (forward-empty v h)
        ∙ stream-repeat n v [] h (omega arith)
    stream-repeat (suc n) v (y ∷ ys) h le =
        let v' : Viewer M = record { sent = v.sent ++ (y ∷ []); read = suc v.read } in
        ap (λ u. (stream channel (repeat n w) u).sent) (forward-message v y ys h)
        ∙ stream-repeat n v' ys (drop-suc v.read (messages channel w.published) y ys h)
            (omega arith)
        ∙ append_assoc v.sent (y ∷ []) ys

  -- The chunks that the worker appends.
  abbrev pub appends : Text → Text → List Text → List Request
  appends k t chunks = map (appends_log k t) chunks

  append_log-published :
      (k t chunk logs : Text) (w : World)
      → Streamed w k t logs
      → (append_log k t chunk w).1.published ≡ log_chunk k chunk ∷ w.published
  unfolding append_log
  append_log-published k t chunk logs w h =
      let holds : (not (holds_token h.row.lease_token t) || not (is_active h.row.status)) ≡ false =
        rw (h.token, text_eq_refl t, h.active) refl in
      rw (append_log, h.stored) (rw holds refl)

  appends-Streamed :
      (k t logs : Text) (chunks : List Text) (w : World)
      → Streamed w k t logs
      → Streamed (serve_all (appends k t chunks) w) k t (logs ++ join chunks)
  unfolding serve_all serve
  appends-Streamed k t logs [] w h = rw (append-nil logs) h
  appends-Streamed k t logs (x ∷ xs) w h = rw (sym (append_assoc logs x (join xs))) (
      appends-Streamed k t (logs ++ x) xs (append_log k t x w).1
        (append_log-Streamed k t x logs w h))

  appends-messages :
      (k t logs : Text) (chunks : List Text) (w : World)
      → Streamed w k t logs
      → messages (log_message k) (serve_all (appends k t chunks) w).published
        ≡ messages (log_message k) w.published ++ chunks
  unfolding serve_all serve messages
  appends-messages k t logs [] w h = sym (append-nil (messages (log_message k) w.published))
  appends-messages k t logs (x ∷ xs) w h =
      let one : messages (log_message k) (append_log k t x w).1.published
          ≡ messages (log_message k) w.published ++ (x ∷ []) =
        rw (append_log-published k t x logs w h) (rw (messages, text_eq_refl k) refl) in
      appends-messages k t (logs ++ x) xs (append_log k t x w).1
        (append_log-Streamed k t x logs w h)
      ∙ ap (λ l. l ++ xs) one
      ∙ append_assoc (messages (log_message k) w.published) (x ∷ []) xs

  snapshot-join : (k t logs : Text) (w : World) → Streamed w k t logs → join (snapshot k w) ≡ logs
  unfolding snapshot
  snapshot-join k t logs w h = text h.row.logs refl ∙ h.written
    where
      text : (l : Text) → h.row.logs ≡ l → join (snapshot k w) ≡ h.row.logs
      text [] e = rw (snapshot, h.stored) (rw e refl)
      text (c ∷ cs) e = rw (snapshot, h.stored) (rw e (append-nil (c ∷ cs)))

  -- The worker appends chunks, some between the snapshot of a log stream and its subscription and
  -- some between the subscription and the first round of its loop, and nothing else is served; the
  -- loop has a round for each of the latter at least. Then the browser gets the logs of the snapshot
  -- and the chunks appended after the subscription, once and in order. Those appended between the
  -- snapshot and the subscription are stored with the others, and it does not get them.
  pub stream_logs-shows :
      (k t old : Text) (between after : List Text) (w : World) (n : ℕ)
      → Streamed w k t old
      → length after ≤ n
      → let w₁ = serve_all (appends k t between) w in
        let w₂ = serve_all (appends k t after) w₁ in
        Streamed w₂ k t ((old ++ join between) ++ join after)
        × (join (stream_logs k w w₁ (repeat n w₂)).sent ≡ old ++ join after)
  unfolding stream_logs subscribe
  stream_logs-shows k t old between after w n h le =
      let w₁ = serve_all (appends k t between) w in
      let h₁ = appends-Streamed k t old between w h in
      let w₂ = serve_all (appends k t after) w₁ in
      let seen = messages (log_message k) w₁.published in
      let waits : drop (length seen) (messages (log_message k) w₂.published) ≡ after =
        ap (drop (length seen)) (appends-messages k t (old ++ join between) after w₁ h₁)
        ∙ drop-length-append seen after in
      (
        appends-Streamed k t (old ++ join between) after w₁ h₁,
        ap join (
              stream-repeat (log_message k) w₂ n
                (record { sent = snapshot k w; read = length seen }) after waits le)
            ∙ join-append (snapshot k w) after
            ∙ ap (λ l. l ++ join after) (snapshot-join k t old w h),
      )
