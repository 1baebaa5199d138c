-- ===== src/Examples/Limits.antt =====
-- Rate limiting at concrete inputs, over a Redis server in memory.
use ai_provider_gateway.Prelude.{
  ◌+◌, ◌*◌, ◌≤◌, ◌≡◌, refl, true, false, none, [], ◌∷◌, arith, if◌then◌else◌,
}
use ai_provider_gateway.Prelude.Texts.{units}
use ai_provider_gateway.Prelude.Int
use ai_provider_gateway.Prelude.Int.{leb_nat}
use ai_provider_gateway.RateLimit.Service.{
  Connection, Limits, check_rate_limit, check_concurrent_streams, streams_key,
  get_limits_for_client, find_client,
}
use ai_provider_gateway.RateLimit.Bucket.{take_token, current_tokens, refilled}
use ai_provider_gateway.RateLimit.Bounds.{admitted, admitted-le}
use ai_provider_gateway.RateLimit.Streams.{
  Streams, Reach, here, next, admit, refuse, undo, pass, stray, idle, running-le-most,
  strays_exceed, IsCounted,
}
use ai_provider_gateway.RateLimit.Guard.{
  Request, can_activate, cleanup, cleanup-can_activate, path_of, ends_with_stream,
}
use ai_provider_gateway.Examples.Memory.{in_memory, empty_memory}

abbrev up : Connection
up = record { is_ready = true; has_client = true; fails = false }

abbrev down : Connection
down = record { is_ready = false; has_client = false; fails = true }

abbrev limits : Limits
limits = record { rps = 1; burst = 2; max_concurrent_streams = 1 }

-- Two of four requests in the first second and one of two in the next are let through.
admitted_test : (admitted in_memory [] 1 2 (0 ∷ 1 ∷ 2 ∷ 999 ∷ 1001 ∷ 1002 ∷ []) empty_memory).0 ≡ 3
unfolding admitted take_token current_tokens refilled
admitted_test = refl

admitted-le_example :
    (admitted in_memory [] 1 2 (0 ∷ 1 ∷ 2 ∷ 999 ∷ 1001 ∷ 1002 ∷ []) empty_memory).0 * 1000 + 0 * 1
    ≤ 2 * 1000 + 1002 * 1
admitted-le_example =
    admitted-le in_memory [] 1 2 0 (0 ∷ 1 ∷ 2 ∷ 999 ∷ 1001 ∷ 1002 ∷ []) empty_memory (omega arith)
      (omega arith, (omega arith, (omega arith, (omega arith, (omega arith, (omega arith, tt))))))
      (λ later. refl)

-- One stream runs, a second request is refused and takes its INCR back.
-- A stream was let in while Redis could not be reached and ended when it could; two more run within a limit of one.
abbrev two_running : Streams
two_running = record idle { count = Int.pos 1; running = 2; strays = 1 }

strayed : Reach 1 idle two_running
strayed =
    next
      (next
        (next (next (next (next (here idle) (pass idle)) (stray _ (omega arith))) (admit _ refl))
          (admit _ refl))
        (refuse _ refl))
      (undo _ (omega arith))

running-le-most_example : IsCounted 1 two_running
running-le-most_example = running-le-most 1 two_running strayed

strays_exceed_example : Reach 3 idle (record idle { count = Int.pos 3; running = 5; strays = 2 })
strays_exceed_example = strays_exceed 3 2

abbrev with_query : Request
with_query = record { url = units "/v1/chat/stream?x"; gateway_key = "key"; request_id = "1" }

cleanup-can_activate_example :
    in_memory.count (streams_key "key") 7 (
      cleanup in_memory up [] none with_query 7
        (can_activate in_memory up [] none true with_query 7 empty_memory).1)
    ≡ (if ends_with_stream with_query.url
        then in_memory.count (streams_key "key") 7 empty_memory
        else Int.incr (in_memory.count (streams_key "key") 7 empty_memory))
unfolding can_activate path_of ends_with_stream check_rate_limit check_concurrent_streams take_token
    current_tokens get_limits_for_client find_client streams_key
cleanup-can_activate_example =
    cleanup-can_activate in_memory up [] none with_query 7 empty_memory (refl, refl, refl) refl refl
      refl refl
