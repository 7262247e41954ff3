-- ===== src/Pipe/Traces.antt =====
-- The calls that the pipes of pipe.go make, with a producer, a format and a transport that answer in
-- any way and write down what they are called with.
use goflow.Base.{
  ℕ, ◌≡◌, ◌∙◌, ◌⊎◌, refl, List, [], ◌∷◌, ◌++◌, append_assoc, append-nil, Option, none, some,
  Option-cases, inl, inr, arith,
}
use goflow.Netflow.Types.{TemplateStore}
use goflow.Pipe.Flow.{
  FlowPacket, Message, ProduceArgs, Cause, PipeConfig, Formatted, formatted, unformatted,
  format_failed, send_failed, produce_failed, of_message, format_send, format_send_one, emit,
  emit_with,
}

-- A call of `Produce`, `Send` or `Commit`.
pub data Event (M : Type 0) : Type 0 where
  produced : FlowPacket → Event M
  sent : List ℕ → List ℕ → Event M
  committed : List M → Event M

module _ {A R M E S : Type 0} (answer : FlowPacket → ProduceArgs A R → List M × Option E)
    (fmt : M → Formatted E) (refuse : List ℕ → List ℕ → Option E) (templates : R → TemplateStore S)
    (router_key : A → R) where
  abbrev pub tracing : PipeConfig A R M E (List (Event M)) S
  tracing = record {
    format = some (λ w msg. (fmt msg, w));
    transport = some (λ w key bytes. (refuse key bytes, w ++ sent key bytes ∷ []));
    producer = some (record {
      produce = λ w packet args.
          let (msgs, e) = answer packet args in (msgs, e, w ++ produced packet ∷ []);
      commit = λ w msgs. w ++ committed msgs ∷ [];
    });
    templates = templates;
    router_key = router_key;
  }

  -- What is to be sent for a list of messages, and how it ends.
  pub data Sends : List M → List (Event M) → Option (Cause E) → Type 0 where
    all_sent : Sends [] [] none
    sent_first :
        {m : M} {ms : List M} {key bytes : List ℕ} {events : List (Event M)} {c : Option (Cause E)}
        → fmt m ≡ formatted key bytes
        → refuse key bytes ≡ none
        → Sends ms events c
        → Sends (m ∷ ms) (sent key bytes ∷ events) c
    stuck_format :
        {m : M} {ms : List M} {e : E}
        → fmt m ≡ unformatted e
        → Sends (m ∷ ms) [] (some (format_failed e))
    stuck_send :
        {m : M} {ms : List M} {key bytes : List ℕ} {e : E}
        → fmt m ≡ formatted key bytes
        → refuse key bytes ≡ some e
        → Sends (m ∷ ms) (sent key bytes ∷ []) (some (send_failed e))

  Formatted-cases :
      (r : Formatted E)
      → ((key : List ℕ) × (bytes : List ℕ) × (r ≡ formatted key bytes))
        ⊎ ((e : E) × (r ≡ unformatted e))
  Formatted-cases (formatted key bytes) = inl (key, bytes, refl)
  Formatted-cases (unformatted e) = inr (e, refl)

  round_on :
      (w w' : List (Event M)) (m : M) (ms : List M)
      → format_send_one tracing w m ≡ (none, w')
      → format_send tracing w (m ∷ ms) ≡ format_send tracing w' ms
  unfolding format_send
  round_on w w' m ms h = ground (arith, h)

  round_stop :
      (w w' : List (Event M)) (m : M) (ms : List M) (c : Cause E)
      → format_send_one tracing w m ≡ (some c, w')
      → format_send tracing w (m ∷ ms) ≡ (some c, w')
  unfolding format_send
  round_stop w w' m ms c h = ground (arith, h)

  -- `formatSend`, with a format and a transport, sends each message once, in order and with the key
  -- and the bytes of its format, up to the first one that the format or the transport refuses, and
  -- returns that refusal. The two may answer in any way that depends on the arguments of a call alone.
  pub format_send-Sends :
      (w : List (Event M)) (msgs : List M)
      → (events : List (Event M)) × (c : Option (Cause E)) × Sends msgs events c
        × (format_send tracing w msgs ≡ (c, w ++ events))
  unfolding format_send format_send_one
  format_send-Sends w [] = ([], none, all_sent, rw append-nil refl)
  format_send-Sends w (m ∷ ms) = elim (Formatted-cases (fmt m)) [
    | inl (key, bytes, f) ↦
        let w' = w ++ sent key bytes ∷ [] in
        elim (Option-cases (refuse key bytes)) [
          | inl taken ↦
              let (events, c, rest, done) = format_send-Sends w' ms in
              (
                sent key bytes ∷ events,
                c,
                sent_first f taken rest,
                round_on w w' m ms (rw (format_send_one, f, taken) refl)
                    ∙ done
                    ∙ rw (append_assoc w) refl,
              )
          | inr (e, refused) ↦ (
            sent key bytes ∷ [],
            some (send_failed e),
            stuck_send f refused,
            round_stop w w' m ms (send_failed e) (rw (format_send_one, f, refused) refl),
          )
        ]
    | inr (e, f) ↦ (
      [],
      some (format_failed e),
      stuck_format f,
      round_stop w (w ++ []) m ms (format_failed e) (rw (format_send_one, f, append-nil) refl),
    )
  ]

  -- What is to be done with a packet, and how it ends.
  pub data Trace (packet : FlowPacket) (args : ProduceArgs A R)
      : List (Event M) → Option (Cause E) → Type 0 where
    handled :
        {msgs : List M} {events : List (Event M)} {c : Option (Cause E)}
        → answer packet args ≡ (msgs, none)
        → Sends msgs events c
        → Trace packet args (produced packet ∷ (events ++ committed msgs ∷ [])) c
    failed :
        {msgs : List M} {e : E}
        → answer packet args ≡ (msgs, some e)
        → Trace packet args (produced packet ∷ committed msgs ∷ []) (some (produce_failed e))

  -- A pipe that has a producer, a format and a transport hands a packet to the producer once, sends
  -- what that gives as `formatSend` does unless the producer reports an error, and in each case commits
  -- what it gave once, at the end. The error that it returns is the first one reported. The three may
  -- answer in any way that depends on the arguments of a call alone.
  pub emit-Trace :
      (pkt : Message A) (packet : FlowPacket) (args : ProduceArgs A R) (w : List (Event M))
      (store : Option S)
      → (events : List (Event M)) × (c : Option (Cause E)) × Trace packet args events c
        × (emit tracing pkt packet args w store
            ≡ record { error = of_message pkt c; world = w ++ events; store = store })
  unfolding emit emit_with
  emit-Trace pkt packet args w store =
      let msgs = (answer packet args).0 in
      elim (Option-cases (answer packet args).1) [
        | inl fine ↦
            let (events, c, sends, run) = format_send-Sends (w ++ produced packet ∷ []) msgs in
            (
              produced packet ∷ (events ++ committed msgs ∷ []),
              c,
              handled (ground (arith, fine)) sends,
              rw (emit, emit_with, fine, run, append_assoc w, append_assoc w) refl,
            )
        | inr (e, wrong) ↦ (
          produced packet ∷ committed msgs ∷ [],
          some (produce_failed e),
          failed (ground (arith, wrong)),
          rw (emit, emit_with, wrong, append_assoc w) refl,
        )
      ]
