-- ===== src/Chat/Streaming/Protocol.antt =====
-- The order of the events that src/chat/chat.service.ts sends in a stream, and their text.
use ai_provider_gateway.Prelude.{◌≡◌, ◌⊎◌, true, false, List, [], ◌∷◌, ◌++◌, map}
use ai_provider_gateway.Prelude.Texts.{Text}
use ai_provider_gateway.Errors.{Settled, returned, threw}
use ai_provider_gateway.Facade.Events.{SseEvent}
use ai_provider_gateway.Facade.Events
use ai_provider_gateway.Params.Numbers.{Numbers}
use ai_provider_gateway.Resilience.Policy.{RetryPolicy}
use ai_provider_gateway.Resilience.Executor.{Call, done, pending}
use ai_provider_gateway.Resilience.Preserving.{IsCalled}
use ai_provider_gateway.Chat.Request.{ChatRequest}
use ai_provider_gateway.Chat.Deployment.{Deployment}
use ai_provider_gateway.Chat.Streaming.{
  StreamCall, StreamOnceResult, concat_text, World, streamed_with, stream_once, StreamExecuted,
  done_of, Streamed,
}

module _ {n : Numbers} (g : Deployment n) (id : Text) where
  -- One `meta`, then texts.
  abbrev pub started : List Text → List SseEvent
  started chunks = Events.meta id ∷ map Events.delta chunks

  -- Nothing has been sent, or `meta` and texts.
  abbrev IsOpen : World g → Type 0
  IsOpen w =
      ((w.meta_emitted ≡ false) × (w.events ≡ []))
      ⊎ ((w.meta_emitted ≡ true) × ((sent : List Text) × (w.events ≡ started sent)))

  -- The answer's text is the end of what has been sent.
  abbrev pub IsSent : StreamOnceResult n → List SseEvent → Type 0
  IsSent result events =
      (before : List Text) × ((chunks : List Text) × ((events ≡ started (before ++ chunks))
          × (result.assembled_text ≡ concat_text chunks)))

  module _ (request : ChatRequest n) (retry : RetryPolicy) where
    -- What a call leaves.
    abbrev Keeps : Call (StreamOnceResult n) × World g → Type 0
    Keeps p =
        IsOpen p.1
        × IsCalled (stream_once g request id) retry IsOpen (λ result w. IsSent result w.events) p.0
            p.1

    -- A step before the call that throws leaves everything as it was.
    abbrev IsKeeping : Settled (StreamCall g) → Type 0
    IsKeeping call = (w : World g) → IsOpen w → Keeps (streamed_with g call w)

  abbrev IsUnanswered : List SseEvent → Type 0
  IsUnanswered events = (events ≡ []) ⊎ ((sent : List Text) × (events ≡ started sent))

  -- What the stream is, by how the run of the executor has ended. With an answer: `meta`, texts of which the last are
  -- the text of that answer, and one `done` with its end. With an error, or never: nothing, or `meta` and
  -- texts.
  abbrev pub IsStream : StreamExecuted g → Streamed g → Type 0
  IsStream (done at (returned result), w) (events, (out, s)) =
      (out ≡ done at (returned tt))
      × ((before : List Text) × ((chunks : List Text) × ((events
                ≡ started (before ++ chunks) ++ (Events.done (done_of g result.value) ∷ []))
              × (result.value.assembled_text ≡ concat_text chunks))))
  IsStream (done at (threw e), w) (events, (out, s)) =
      (out ≡ done at (threw e)) × IsUnanswered events
  IsStream (pending, w) (events, (out, s)) = (out ≡ pending) × IsUnanswered events
