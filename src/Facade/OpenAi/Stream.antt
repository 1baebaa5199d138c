-- ===== src/Facade/OpenAi/Stream.antt =====
-- What a client of the Chat Completions contract makes of the stream, and how it compares with the
-- answer that is not streamed.
use ai_provider_gateway.Prelude.{
  ℕ, ◌≡◌, ◌≢◌, ◌↔◌, ◌⊎◌, refl, ap, ◌∙◌, Bool, true, false, not, ◌&&◌, Option, none, some, String,
  List, [], ◌∷◌, ◌++◌, arith, str_eq, ◌+◌, is_some, if◌then◌else◌,
}
use mathlib.Core.List.{append-nil, append_assoc}
use ai_provider_gateway.Prelude.Texts.{Text, text_eq, text_eq_refl}
use ai_provider_gateway.Facade.Events.{
  GatewayToolCall, FinishReason, Usage, SseDone, SseEvent, calls_of, has_any, deltas,
  map_stop_reason_to_finish_reason,
}
use ai_provider_gateway.Facade.Events
use ai_provider_gateway.Facade.OpenAi.{
  OpenAiFinishReason, OpenAiUsage, OpenAiStreamState, ChunkDelta, role, content, calls, nothing,
  Line, chunk, done, plain_chunk, stream_usage, create_open_ai_stream_state,
  to_open_ai_completion_id, map_system_fingerprint_to_open_ai, map_finish_reason_to_open_ai,
  resolve_open_ai_finish_reason, lines_of, ChatResponse, map_chat_response_to_open_ai,
}

-- The answer as far as the client has read it.
pub record Reading : Type 0 where
  pub opened : Bool
  pub id : Text
  pub text : Text
  pub tool_calls : List GatewayToolCall
  pub finish_reason : Option OpenAiFinishReason
  pub usage : Option OpenAiUsage
  pub system_fingerprint : Option String
  pub ended : Bool

abbrev pub unread : Reading
unread = record {
  opened = false;
  id = [];
  text = [];
  tool_calls = [];
  finish_reason = none;
  usage = none;
  system_fingerprint = none;
  ended = false;
}

abbrev add_delta : ChunkDelta → Text → Reading → Option Reading
add_delta role id r = if r.opened then none else some (record r { opened = true; id = id })
add_delta (content t) id r =
    if r.opened && text_eq r.id id then some (record r { text = r.text ++ t }) else none
add_delta (calls list) id r =
    if r.opened && text_eq r.id id
    then some (record r { tool_calls = r.tool_calls ++ list })
    else none
add_delta nothing id r = if r.opened && text_eq r.id id then some r else none

-- The role comes first and once, each chunk has the id of the first, a chunk with a finish reason is
-- the last one, and the stream ends after it.
abbrev read_line : Line → Reading → Option Reading
read_line (chunk c) r = if is_some r.finish_reason then none else elim (add_delta c.delta c.id r) [
  | none ↦ none
  | some r' ↦ some (record r' {
    finish_reason = c.finish_reason;
    usage = c.usage;
    system_fingerprint = c.system_fingerprint;
  })
]
read_line done r =
    if is_some r.finish_reason && not r.ended then some (record r { ended = true }) else none

unfoldable pub read : List Line → Reading → Option Reading
read [] r = some r
read (l ∷ ls) r = elim (read_line l r) [ none ↦ none | some r' ↦ read ls r' ]

abbrev pub run_lines : List SseEvent → OpenAiStreamState → List Line
run_lines [] s = []
run_lines (e ∷ es) s = let (lines, s') = lines_of e s in lines ++ run_lines es s'

abbrev pub concat_text : List Text → Text
concat_text [] = []
concat_text (t ∷ ts) = t ++ concat_text ts

abbrev so_far : Text → Text → Reading
so_far id text = record unread { opened = true; id = id; text = text }

-- The usage of the Chat Completions contract, for a client that asked for it: a total that the gateway does not
-- know is the sum.
abbrev pub usage_asked : Bool → Option Usage → Option OpenAiUsage
usage_asked false usage = none
usage_asked true none = none
usage_asked true (some u) = some (record {
  prompt_tokens = u.input_tokens;
  completion_tokens = u.output_tokens;
  total_tokens = elim u.total_tokens [
    | none ↦ u.input_tokens + u.output_tokens
    | some total ↦ total
  ];
})

-- The finish reason of the contract: calls win over what the gateway says, and the reasons that it does not know are a
-- stop.
abbrev pub reason_asked : List GatewayToolCall → Option FinishReason → OpenAiFinishReason
reason_asked (call ∷ more) reason = OpenAiFinishReason.tool_calls
reason_asked [] (some Events.tool_calls) = OpenAiFinishReason.tool_calls
reason_asked [] (some Events.max_length) = OpenAiFinishReason.max_length
reason_asked [] (some Events.content_filter) = OpenAiFinishReason.content_filter
reason_asked [] reason = OpenAiFinishReason.stop

abbrev pub fingerprint_asked : Option String → Option String
fingerprint_asked none = none
fingerprint_asked (some f) = if str_eq f "" then none else some f

stream_usage_lem :
    (asked : Bool) (usage : Option Usage) → stream_usage asked usage ≡ usage_asked asked usage
unfolding stream_usage
stream_usage_lem asked usage = ground arith

resolve_open_ai_finish_reason_lem :
    (d : SseDone)
    → resolve_open_ai_finish_reason d ≡ reason_asked (calls_of d.tool_calls) d.finish_reason
unfolding resolve_open_ai_finish_reason map_finish_reason_to_open_ai
resolve_open_ai_finish_reason_lem d = ground arith

abbrev pub whole : Text → Text → Bool → SseDone → Reading
whole id text include_usage d = record {
  opened = true;
  id = id;
  text = text;
  tool_calls = calls_of d.tool_calls;
  finish_reason = some (reason_asked (calls_of d.tool_calls) d.finish_reason);
  usage = usage_asked include_usage d.usage;
  system_fingerprint = fingerprint_asked d.system_fingerprint;
  ended = true;
}

-- The same in the mapper's words.
abbrev made : Text → Text → Bool → SseDone → Reading
made id text include_usage d = record (whole id text include_usage d) {
  finish_reason = some (resolve_open_ai_finish_reason d);
  usage = stream_usage include_usage d.usage;
  system_fingerprint = map_system_fingerprint_to_open_ai d.system_fingerprint;
}

fingerprint_lem : (f : Option String) → map_system_fingerprint_to_open_ai f ≡ fingerprint_asked f
unfolding map_system_fingerprint_to_open_ai
fingerprint_lem none = refl
fingerprint_lem (some f) = refl

made_lem :
    (id text : Text) (include_usage : Bool) (d : SseDone)
    → made id text include_usage d ≡ whole id text include_usage d
made_lem id text include_usage d =
    rw
      (
        resolve_open_ai_finish_reason_lem d,
        stream_usage_lem include_usage d.usage,
        fingerprint_lem d.system_fingerprint,
      )
      refl

done-made :
    (d : SseDone) (s : OpenAiStreamState) (text : Text)
    → read (lines_of (Events.done d) s).0 (so_far s.completion_id text)
      ≡ some (made s.completion_id text s.include_usage d)
unfolding read lines_of plain_chunk
done-made d s text = go (calls_of d.tool_calls)
  where
    go :
        (list : List GatewayToolCall)
        → read
            ((if has_any list then chunk (plain_chunk s (calls list)) ∷ [] else [])
              ++ chunk (record (plain_chunk s nothing) {
                finish_reason = some (resolve_open_ai_finish_reason d);
                usage = stream_usage s.include_usage d.usage;
                system_fingerprint = map_system_fingerprint_to_open_ai d.system_fingerprint;
              })
                ∷ done
                ∷ [])
            (so_far s.completion_id text)
          ≡ some (record (made s.completion_id text s.include_usage d) { tool_calls = list })
    go [] = rw text_eq_refl refl
    go (c ∷ cs) = rw text_eq_refl (rw text_eq_refl refl)

content-read :
    (s : OpenAiStreamState) (text t : Text) (lines : List Line)
    → read (chunk (plain_chunk s (content t)) ∷ lines) (so_far s.completion_id text)
      ≡ read lines (so_far s.completion_id (text ++ t))
unfolding read plain_chunk
content-read s text t lines = rw text_eq_refl refl

deltas-made :
    (ts : List Text) (d : SseDone) (s : OpenAiStreamState) (text : Text)
    → read (run_lines (deltas ts d) s) (so_far s.completion_id text)
      ≡ some (made s.completion_id (text ++ concat_text ts) s.include_usage d)
unfolding lines_of
deltas-made [] d s text = rw (append-nil, append-nil) (done-made d s text)
deltas-made (t ∷ ts) d s text =
    content-read s text t (run_lines (deltas ts d) s)
    ∙ (deltas-made ts d s (text ++ t)
        ∙ ap (λ x. some (made s.completion_id x s.include_usage d))
            (append_assoc text t (concat_text ts)))

-- A stream as the gateway emits it (one `meta`, any number of `delta`, one `done`) is one that a
-- client reads to its end: the role first, one id on every chunk, one finish reason in the last chunk,
-- then the end mark. What it has then is the text of all deltas, the tool calls, the finish reason, the
-- fingerprint that is not empty, and the usage if the request asked for it.
pub read-run_lines :
    (model : String) (include_usage : Bool) (created : ℕ) (id : Text) (ts : List Text) (d : SseDone)
    → read
        (run_lines
          (Events.meta id ∷ deltas ts d)
          (create_open_ai_stream_state model include_usage created))
        unread
      ≡ some (whole (to_open_ai_completion_id id) (concat_text ts) include_usage d)
unfolding lines_of create_open_ai_stream_state read plain_chunk
read-run_lines model include_usage created id ts d =
    deltas-made ts d
      (record {
        completion_id = to_open_ai_completion_id id;
        model = model;
        role_sent = true;
        include_usage = include_usage;
        created = created;
      })
      []
    ∙ ap some (made_lem (to_open_ai_completion_id id) (concat_text ts) include_usage d)

-- For one provider answer, the finish reason of the stream differs from that of the answer that is
-- not streamed exactly when the provider stopped at its token limit and there are tool calls.
pub finish_reasons_differ_iff :
    (reason : Option FinishReason) (d : SseDone) (result : ChatResponse) (model : String)
    (created : ℕ)
    → d.finish_reason ≡ some (map_stop_reason_to_finish_reason reason d.tool_calls)
    → result.finish_reason ≡ some (map_stop_reason_to_finish_reason reason d.tool_calls)
    → (resolve_open_ai_finish_reason d
        ≢ (map_chat_response_to_open_ai result model created).finish_reason)
      ↔ ((has_any (calls_of d.tool_calls) ≡ true)
          × ((reason ≡ some FinishReason.max_tokens) ⊎ (reason ≡ some FinishReason.max_length)))
unfolding resolve_open_ai_finish_reason map_chat_response_to_open_ai
    map_stop_reason_to_finish_reason map_finish_reason_to_open_ai
finish_reasons_differ_iff reason d result model created streamed answered =
    (ground arith, ground arith)
