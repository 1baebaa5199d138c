-- ===== src/Facade/Anthropic/Protocol.antt =====
-- The stream of the Anthropic facade as a client reads it: a checker of the Messages contract, which
-- knows nothing of the mapper's state, accepts every stream that anthropic-stream.mapper.ts makes.
use ai_provider_gateway.Prelude.{
  ℕ, ◌+◌, ◌≡◌, refl, sym, ap, ◌∙◌, Bool, true, false, not, ◌&&◌, Option, none, some, String, List,
  [], ◌∷◌, ◌++◌, ◌==◌, arith, if◌then◌else◌,
}
use ai_provider_gateway.Prelude.Texts.{Text}
use ai_provider_gateway.Facade.Events.{GatewayToolCall, SseDone, SseEvent, calls_of, deltas}
use ai_provider_gateway.Facade.Events
use ai_provider_gateway.Facade.Anthropic.Frames.{
  Frame, message_start, block_start, block_delta, block_stop, message_delta, message_stop, Block,
  Delta, StopReason, AnthropicUsage,
}
use ai_provider_gateway.Facade.Anthropic.{
  AnthropicStreamState, create_anthropic_stream_state, next_block_index, emit_thinking_block,
  thinking_frames, tool_frames, frames_of,
}

-- One message, opened once; blocks one after the other with indices 0, 1, 2, …, each opened, filled
-- and closed; the final delta and the stop after the last block.
pub record Client : Type 0 where
  pub started : Bool
  pub open_block : Option ℕ
  pub next : ℕ
  pub ended : Bool
  pub finished : Bool

abbrev is_none {ℓ} : {A : Type ℓ} → Option A → Bool
is_none none = true
is_none (some a) = false

abbrev is_open : Option ℕ → ℕ → Bool
is_open none i = false
is_open (some j) i = j == i

abbrev between : Client → Bool
between c = c.started && (is_none c.open_block && not c.ended)

unfoldable pub accept : Client → Frame → Option Client
accept c (message_start id model) =
    if not c.started then some (record c { started = true }) else none
accept c (block_start i block) =
    if between c && c.next == i then some (record c { open_block = some i }) else none
accept c (block_delta i d) = if is_open c.open_block i then some c else none
accept c (block_stop i) =
    if is_open c.open_block i
    then some (record c { open_block = none; next = c.next + 1 })
    else none
accept c (message_delta reason usage) = if between c then some (record c { ended = true }) else none
accept c message_stop =
    if c.ended && not c.finished then some (record c { finished = true }) else none

unfoldable pub accept_all : Client → List Frame → Option Client
accept_all c [] = some c
accept_all c (f ∷ fs) = elim (accept c f) [ none ↦ none | some c' ↦ accept_all c' fs ]

abbrev pub new_client : Client
new_client = record {
  started = false;
  open_block = none;
  next = 0;
  ended = false;
  finished = false;
}

accept_all-append :
    (c c' : Client) (fs gs : List Frame)
    → accept_all c fs ≡ some c'
    → accept_all c (fs ++ gs) ≡ accept_all c' gs
unfolding accept_all
accept_all-append c c' [] gs h = ground arith
accept_all-append c c' (f ∷ fs) gs h = go (accept c f) (λ d. accept_all-append d c' fs gs) h
  where
    go :
        (o : Option Client)
        → ((d : Client) → accept_all d fs ≡ some c' → accept_all d (fs ++ gs) ≡ accept_all c' gs)
        → (elim o [ none ↦ none | some d ↦ accept_all d fs ]) ≡ some c'
        → (elim o [ none ↦ none | some d ↦ accept_all d (fs ++ gs) ]) ≡ accept_all c' gs
    go none later e = cc
    go (some d) later e = later d e

-- Between two blocks, where the mapper will take the index that the client expects.
abbrev ready : AnthropicStreamState → Client
ready s = record {
  started = true;
  open_block = none;
  next = (next_block_index s).0;
  ended = false;
  finished = false;
}

thinking_frames-accepted :
    (s : AnthropicStreamState) (t : Option Text)
    → accept_all (ready s) (thinking_frames s t).0 ≡ some (ready (thinking_frames s t).1)
unfolding thinking_frames emit_thinking_block next_block_index accept_all accept
thinking_frames-accepted s none = refl
thinking_frames-accepted s (some t) = ground arith

abbrev at_block : ℕ → Client
at_block i = record { started = true; open_block = none; next = i; ended = false; finished = false }

whole_block-accepted :
    (i : ℕ) (block : Block) (d : Delta) (rest : List Frame)
    → accept_all (at_block i) (block_start i block ∷ block_delta i d ∷ block_stop i ∷ rest)
      ≡ accept_all (at_block (i + 1)) rest
unfolding accept_all accept
whole_block-accepted i block d rest = ground arith

next_block_index-step :
    (s : AnthropicStreamState) (active : Option ℕ)
    → (next_block_index (record (next_block_index s).1 { active_tool_block_index = active })).0
      ≡ (next_block_index s).0 + 1
unfolding next_block_index
next_block_index-step s active = ground arith

tool_frames-accepted :
    (s : AnthropicStreamState) (calls : List GatewayToolCall)
    → accept_all (ready s) (tool_frames s calls).0 ≡ some (ready (tool_frames s calls).1)
unfolding tool_frames
tool_frames-accepted s [] = unfold accept_all in refl
tool_frames-accepted s (call ∷ calls) =
    let (index, s') = next_block_index s in
    let next = record s' { active_tool_block_index = some index } in
    whole_block-accepted index _ _ _
    ∙ (ap (λ i. accept_all (at_block i) (tool_frames next calls).0)
          (sym (next_block_index-step s (some index)))
        ∙ tool_frames-accepted next calls)

-- The state of the mapper and the client between `meta` and `done`.
abbrev IsStreaming : AnthropicStreamState → Client → Type 0
IsStreaming s c =
    (s.block_index ≡ 0)
    × (c ≡ record {
      started = true;
      open_block = if s.text_block_started then some 0 else none;
      next = 0;
      ended = false;
      finished = false;
    })

abbrev pub run : List SseEvent → AnthropicStreamState → List Frame
run [] s = []
run (e ∷ es) s = let (frames, s') = frames_of e s in frames ++ run es s'

abbrev closed : Client → Client
closed c = record c { ended = true; finished = true }

finish-accepted :
    (i : ℕ) (reason : StopReason) (usage : AnthropicUsage)
    → accept_all (at_block i) (message_delta reason usage ∷ message_stop ∷ [])
      ≡ some (closed (at_block i))
unfolding accept_all accept
finish-accepted i reason usage = refl

-- Closing the text block, if there is one, leads to the index that the mapper takes next.
close_text-accepted :
    (s : AnthropicStreamState) (c : Client) (rest : List Frame)
    → IsStreaming s c
    → accept_all c ((if s.text_block_started then block_stop s.block_index ∷ [] else []) ++ rest)
      ≡ accept_all (ready s) rest
unfolding accept_all accept next_block_index
close_text-accepted s c rest (zero_index, same) = ground arith

done-accepted :
    (s : AnthropicStreamState) (c : Client) (d : SseDone)
    → IsStreaming s c
    → (n : ℕ) × (accept_all c (frames_of (Events.done d) s).0 ≡ some (closed (at_block n)))
unfolding frames_of
done-accepted s c d h =
    let (thinking, s') = thinking_frames s d.thinking_content in
    let (tools, s'') = tool_frames s' (calls_of d.tool_calls) in
    (
      (next_block_index s'').0,
      close_text-accepted s c _ h
          ∙ (accept_all-append (ready s) (ready s') thinking _
                (thinking_frames-accepted s d.thinking_content)
              ∙ (accept_all-append (ready s') (ready s'') tools _
                    (tool_frames-accepted s' (calls_of d.tool_calls))
                  ∙ finish-accepted _ _ _)),
    )

delta-accepted :
    (s : AnthropicStreamState) (c : Client) (t : Text)
    → IsStreaming s c
    → (c' : Client) × (accept_all c (frames_of (Events.delta t) s).0 ≡ some c')
      × IsStreaming (frames_of (Events.delta t) s).1 c'
unfolding frames_of accept_all accept
delta-accepted s c t (zero_index, same) = (
  record { started = true; open_block = some 0; next = 0; ended = false; finished = false },
  ground arith,
  (zero_index, refl),
)

deltas-accepted :
    (s : AnthropicStreamState) (c : Client) (ts : List Text) (d : SseDone)
    → IsStreaming s c
    → (n : ℕ) × (accept_all c (run (deltas ts d) s) ≡ some (closed (at_block n)))
deltas-accepted s c [] d h =
    let (n, e) = done-accepted s c d h in
    (
      n,
      accept_all-append c (closed (at_block n)) (frames_of (Events.done d) s).0 [] e
          ∙ (unfold accept_all in refl),
    )
deltas-accepted s c (t ∷ ts) d h =
    let (c', e, h') = delta-accepted s c t h in
    let (frames, s') = frames_of (Events.delta t) s in
    let (n, e') = deltas-accepted s' c' ts d h' in
    (n, accept_all-append c c' frames (run (deltas ts d) s') e ∙ e')

-- A stream as the gateway emits it (one `meta`, any number of `delta`, one `done`) becomes, from a new
-- mapper state, events that a client of the Messages contract accepts to the end: one message start,
-- then `n` blocks with the indices 0 to n - 1, each closed before the next is opened, then the final
-- delta and the stop. So it is whatever text, thinking and tool calls there are.
pub stream-accepted :
    (model : String) (id : Text) (ts : List Text) (d : SseDone)
    → (n : ℕ) × (accept_all new_client
          (run (Events.meta id ∷ deltas ts d) (create_anthropic_stream_state model))
        ≡ some
            (record { started = true; open_block = none; next = n; ended = true; finished = true }))
stream-accepted model id ts d =
    let (frames, s) = frames_of (Events.meta id) (create_anthropic_stream_state model) in
    let begun : Client = record {
      started = true;
      open_block = none;
      next = 0;
      ended = false;
      finished = false;
    } in
    let (n, e) =
      deltas-accepted s begun ts d
        (unfold frames_of create_anthropic_stream_state in (refl, refl)) in
    (
      n,
      accept_all-append new_client begun frames (run (deltas ts d) s)
            (unfold frames_of create_anthropic_stream_state accept_all accept in refl)
          ∙ e,
    )
