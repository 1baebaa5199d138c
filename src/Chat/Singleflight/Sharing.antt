-- ===== src/Chat/Singleflight/Sharing.antt =====
-- That src/chat/helpers/in-process-singleflight.ts has at most one run of a key at a time.
use ai_provider_gateway.Prelude.{
  ℕ, ◌≡◌, refl, ap, sym, ◌∙◌, ◌⊎◌, inl, inr, true, Option, none, some, List, [], ◌∷◌, ◌==◌,
  Bool-cases, if◌then◌else◌,
}
use ai_provider_gateway.Prelude.Texts.{Text, text_eq, text_eq_refl, text_eq_sound}
use ai_provider_gateway.Chat.Singleflight.{
  Runs, Flights, no_flights, get_run, delete_run, on_existing, singleflight, is_running, end_run,
  settle, Happening, calls, settles, flights_after,
}

-- The runs of a key.
abbrev pub runs_of : Text → Runs → List ℕ
runs_of key [] = []
runs_of key ((k, r) ∷ l) = if text_eq key k then r ∷ runs_of key l else runs_of key l

-- No key has two runs.
abbrev IsUnique : Runs → Type 0
IsUnique [] = Unit
IsUnique ((k, r) ∷ l) = (get_run k l ≡ none) × IsUnique l

delete_run-none :
    (key : Text) (l : Runs) → get_run key l ≡ none → (delete_run key l ≡ l) × (runs_of key l ≡ [])
unfolding get_run delete_run
delete_run-none key [] h = (refl, refl)
delete_run-none key ((k, r) ∷ l) h = elim (Bool-cases (text_eq key k)) [
  | inl same ↦ absurd (let no_run = rw same at h in cc)
  | inr other ↦
      let (kept, none_of) = delete_run-none key l (rw other at h) in
      rw (other, kept) (refl, none_of)
]

get_run-delete_run :
    (j key : Text) (l : Runs) → get_run j l ≡ none → get_run j (delete_run key l) ≡ none
unfolding get_run delete_run
get_run-delete_run j key [] h = refl
get_run-delete_run j key ((k, r) ∷ l) h = elim (Bool-cases (text_eq j k)) [
  | inl same ↦ absurd (let no_run = rw same at h in cc)
  | inr other ↦
      let rest = get_run-delete_run j key l (rw other at h) in
      elim (Bool-cases (text_eq key k)) [
        | inl gone ↦ rw gone rest
        | inr kept ↦ rw kept (rw other rest)
      ]
]

delete_run-IsUnique : (key : Text) (l : Runs) → IsUnique l → IsUnique (delete_run key l)
unfolding delete_run
delete_run-IsUnique key [] u = u
delete_run-IsUnique key ((k, r) ∷ l) (new, u) = elim (Bool-cases (text_eq key k)) [
  | inl gone ↦ rw gone (delete_run-IsUnique key l u)
  | inr kept ↦ rw kept (get_run-delete_run k key l new, delete_run-IsUnique key l u)
]

-- What a key that has a text equal to another's has not, the other has not.
new_of_same :
    (key k : Text) (l : Runs) → text_eq key k ≡ true → get_run k l ≡ none → get_run key l ≡ none
new_of_same key k l same new = ap (λ j. get_run j l) (text_eq_sound key k same) ∙ new

not_running :
    (key : Text) (run : ℕ) (l : Runs) → get_run key l ≡ none → is_running key run l ≡ true → ⊥
unfolding get_run is_running
not_running key run [] h running = cc
not_running key run ((k, r) ∷ l) h running = elim (Bool-cases (text_eq key k)) [
  | inl same ↦ let no_run = rw same at h in cc
  | inr other ↦ not_running key run l (rw other at h) (rw other at running)
]

-- To end a run is to delete its key, if no key has two runs.
end_run-delete_run :
    (key : Text) (run : ℕ) (l : Runs)
    → IsUnique l
    → is_running key run l ≡ true
    → end_run key run l ≡ delete_run key l
unfolding is_running end_run delete_run
end_run-delete_run key run [] u running = refl
end_run-delete_run key run ((k, r) ∷ l) (new, u) running = elim (Bool-cases (text_eq key k)) [
  | inl same ↦
      let gone = new_of_same key k l same new in
      elim (Bool-cases (run == r)) [
        | inl this ↦ rw (same, this) (sym (delete_run-none key l gone).0)
        | inr older ↦ absurd (not_running key run l gone (rw (same, older) at running))
      ]
  | inr other ↦
      rw other (ap (λ m. (k, r) ∷ m) (end_run-delete_run key run l u (rw other at running)))
]

runs_of_one :
    (key : Text) (run : ℕ) (l : Runs)
    → IsUnique l
    → get_run key l ≡ some run
    → runs_of key l ≡ run ∷ []
unfolding get_run
runs_of_one key run [] u h = cc
runs_of_one key run ((k, r) ∷ l) (new, u) h = elim (Bool-cases (text_eq key k)) [
  | inl same ↦
      let this = rw same at h in
      rw (same, (delete_run-none key l (new_of_same key k l same new)).1) (cc)
  | inr other ↦ rw other (runs_of_one key run l u (rw other at h))
]

-- The code's map has exactly the runs that have begun and not settled.
abbrev IsTracked : Flights → Type 0
IsTracked s = (s.running ≡ s.in_flight) × IsUnique s.in_flight

on_existing-IsTracked :
    (key : Text) (s : Flights) (existing : Option ℕ)
    → get_run key s.in_flight ≡ existing
    → IsTracked s
    → IsTracked (on_existing key s existing).1
unfolding on_existing
on_existing-IsTracked key s (some r) here t = t
on_existing-IsTracked key s none here (all, u) = (ap (λ l. (key, s.next) ∷ l) all, (here, u))

settle-IsTracked : (key : Text) (run : ℕ) (s : Flights) → IsTracked s → IsTracked (settle key run s)
unfolding settle
settle-IsTracked key run s (all, u) = elim (Bool-cases (is_running key run s.running)) [
  | inl running ↦ rw running (
    ap (end_run key run) all
        ∙ end_run-delete_run key run s.in_flight u (ap (is_running key run) (sym all) ∙ running),
    delete_run-IsUnique key s.in_flight u,
  )
  | inr settled ↦ rw settled (all, u)
]

flights_after-IsTracked :
    (h : List Happening) (s : Flights) → IsTracked s → IsTracked (flights_after h s)
unfolding flights_after singleflight
flights_after-IsTracked [] s t = t
flights_after-IsTracked (calls key ∷ h) s t =
    flights_after-IsTracked h _ (on_existing-IsTracked key s _ refl t)
flights_after-IsTracked (settles key run ∷ h) s t =
    flights_after-IsTracked h _ (settle-IsTracked key run s t)

on_existing_lem :
    (key : Text) (s : Flights) (existing : Option ℕ)
    → get_run key s.in_flight ≡ existing
    → IsTracked s
    → let (run, s') = on_existing key s existing in
      (runs_of key s'.running ≡ run ∷ [])
      × ((runs_of key s.running ≡ []) ⊎ ((runs_of key s.running ≡ run ∷ []) × (s' ≡ s)))
unfolding on_existing
on_existing_lem key s none here (all, u) =
    let none_of = ap (runs_of key) all ∙ (delete_run-none key s.in_flight here).1 in
    (rw (text_eq_refl key, none_of) refl, inl none_of)
on_existing_lem key s (some r) here (all, u) =
    let one = ap (runs_of key) all ∙ runs_of_one key r s.in_flight u here in (one, inr (one, refl))

-- After every history of calls and settlements: a call for a key shares the one run of that key that has
-- begun and not settled, and changes nothing, or, if there is none, it begins one; then its run is the only
-- one of that key.
pub singleflight_lem :
    (h : List Happening) (key : Text)
    → let s = flights_after h no_flights in
      let (run, s') = singleflight key s in
      (runs_of key s'.running ≡ run ∷ [])
      × ((runs_of key s.running ≡ []) ⊎ ((runs_of key s.running ≡ run ∷ []) × (s' ≡ s)))
unfolding singleflight
singleflight_lem h key =
    let s = flights_after h no_flights in
    on_existing_lem key s _ refl (flights_after-IsTracked h no_flights (refl, tt))
