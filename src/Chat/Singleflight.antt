-- ===== src/Chat/Singleflight.antt =====
-- src/chat/helpers/in-process-singleflight.ts: `inFlight` is a list of the keys with the runs of `work` that
-- they stand for, the youngest first; a run stands for its promise. `running` is no part of the code: it has
-- the runs that have begun and not settled.
pub mod Sharing
use ai_provider_gateway.Prelude.{
  ℕ, ◌+◌, Bool, true, false, not, ◌&&◌, ◌||◌, Option, none, some, List, [], ◌∷◌, ◌==◌,
  if◌then◌else◌,
}
use ai_provider_gateway.Prelude.Texts.{Text, text_eq}

abbrev pub Runs : Type 0
Runs = List (Text × ℕ)

pub record Flights : Type 0 where
  pub in_flight : Runs
  pub running : Runs
  pub next : ℕ

abbrev pub no_flights : Flights
no_flights = record { in_flight = []; running = []; next = 0 }

-- `inFlight.get(key)`
unfoldable pub get_run : Text → Runs → Option ℕ
get_run key [] = none
get_run key ((k, r) ∷ l) = let rest = get_run key l in if text_eq key k then some r else rest

-- `inFlight.delete(key)`
unfoldable pub delete_run : Text → Runs → Runs
delete_run key [] = []
delete_run key ((k, r) ∷ l) =
    let rest = delete_run key l in if text_eq key k then rest else (k, r) ∷ rest

-- `if (existing) return existing;`, else `work()` begins. The key that is set is a new one.
unfoldable pub on_existing : Text → Flights → Option ℕ → ℕ × Flights
on_existing key s (some r) = (r, s)
on_existing key s none = (
  s.next,
  record {
    in_flight = (key, s.next) ∷ s.in_flight;
    running = (key, s.next) ∷ s.running;
    next = s.next + 1;
  },
)

unfoldable pub singleflight : Text → Flights → ℕ × Flights
unfolding on_existing get_run
singleflight key s = on_existing key s (get_run key s.in_flight)

unfoldable pub is_running : Text → ℕ → Runs → Bool
is_running key run [] = false
is_running key run ((k, r) ∷ l) =
    let rest = is_running key run l in if text_eq key k && run == r then true else rest

unfoldable pub end_run : Text → ℕ → Runs → Runs
end_run key run [] = []
end_run key run ((k, r) ∷ l) =
    let rest = end_run key run l in if text_eq key k && run == r then l else (k, r) ∷ rest

-- A run of a key that has begun settles, and `finally` deletes its key. Nothing else settles.
unfoldable pub settle : Text → ℕ → Flights → Flights
unfolding is_running end_run delete_run
settle key run s =
    if is_running key run s.running
    then record s { in_flight = delete_run key s.in_flight; running = end_run key run s.running }
    else s

-- What happens to the flights, in the order in which it happens.
pub data Happening : Type 0 where
  calls : Text → Happening
  settles : Text → ℕ → Happening

unfoldable pub flights_after : List Happening → Flights → Flights
unfolding singleflight settle
flights_after [] s = s
flights_after (calls key ∷ h) s = flights_after h (singleflight key s).1
flights_after (settles key run ∷ h) s = flights_after h (settle key run s)
