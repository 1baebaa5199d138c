-- ===== src/Cache/Replay.antt =====
-- src/chat/services/stream-cache-replay.service.ts: a cached answer sent as a stream. `abort n` is what
-- `shouldAbort` answers at its nth call. The delta chunks are slices of 64 UTF-16 code units.
use ai_provider_gateway.Prelude.{
  ℕ, zero, suc, ◌≤◌, ◌<◌, ◌≡◌, refl, ap, ◌∙◌, Bool, false, List, [], ◌∷◌, ◌++◌, take, drop, length,
  arith, Bool-cases, inl, inr, if◌then◌else◌,
}
use ai_provider_gateway.Prelude.Texts.{Text}

abbrev pub chunk_size : ℕ
chunk_size = 64

-- The events of the replay: the meta and the done payload are made of the cached answer as they are.
pub data ReplayEvent : Type 0 where
  meta done : ReplayEvent
  delta : Text → ReplayEvent

-- `for (let i = 0; i < text.length; i += 64)`, over the text from `i` on, with fuel.
unfoldable pub replay_deltas : (abort : ℕ → Bool) → (fuel calls : ℕ) → Text → List ReplayEvent
replay_deltas abort zero calls rest = []
replay_deltas abort (suc fuel) calls [] = if abort calls then [] else done ∷ []
replay_deltas abort (suc fuel) calls (c ∷ rest) =
    let later = replay_deltas abort fuel (suc calls) (drop chunk_size (c ∷ rest)) in
    if abort calls then [] else delta (take chunk_size (c ∷ rest)) ∷ later

-- Each round takes a unit or more off the text: the fuel, its length and one more, is enough.
unfoldable pub replay : (abort : ℕ → Bool) → Text → List ReplayEvent
replay abort text =
    let deltas = replay_deltas abort (suc (length text)) 1 text in
    if abort 0 then [] else meta ∷ deltas

-- The text that a client puts together.
abbrev pub text_of : List ReplayEvent → Text
text_of [] = []
text_of (meta ∷ es) = text_of es
text_of (done ∷ es) = text_of es
text_of (delta t ∷ es) = t ++ text_of es

-- Deltas of 1 to 64 units, then one `done`.
abbrev pub IsDeltas : List ReplayEvent → Type 0
IsDeltas [] = ⊥
IsDeltas (meta ∷ es) = ⊥
IsDeltas (done ∷ es) = es ≡ []
IsDeltas (delta t ∷ es) = (1 ≤ length t) × (length t ≤ chunk_size) × IsDeltas es

abbrev pub never : ℕ → Bool
never n = false

take-append-drop {ℓ} : {A : Type ℓ} (n : ℕ) (xs : List A) → take n xs ++ drop n xs ≡ xs
take-append-drop zero xs = refl
take-append-drop (suc n) [] = refl
take-append-drop (suc n) (x ∷ xs) = rw (take-append-drop n xs)

length-drop_le {ℓ} : {A : Type ℓ} (n : ℕ) (xs : List A) → length (drop n xs) ≤ length xs
length-drop_le zero xs = omega arith
length-drop_le (suc n) [] = omega arith
length-drop_le (suc n) (x ∷ xs) = omega (arith, length-drop_le n xs)

length-take_le {ℓ} : {A : Type ℓ} (n : ℕ) (xs : List A) → length (take n xs) ≤ n
length-take_le zero xs = omega arith
length-take_le (suc n) [] = omega arith
length-take_le (suc n) (x ∷ xs) = omega (arith, length-take_le n xs)

replay_deltas_whole :
    (fuel calls : ℕ) (text : Text)
    → length text < fuel
    → IsDeltas (replay_deltas never fuel calls text)
      × (text_of (replay_deltas never fuel calls text) ≡ text)
unfolding replay_deltas
replay_deltas_whole zero calls text h = absurd (omega arith)
replay_deltas_whole (suc fuel) calls [] h = (refl, refl)
replay_deltas_whole (suc fuel) calls (c ∷ rest) h =
    let (shape, same) =
      replay_deltas_whole fuel (suc calls) (drop 63 rest) (omega (arith, length-drop_le 63 rest)) in
    (
      (omega arith, omega (arith, length-take_le 63 rest), shape),
      ap (λ t. c ∷ (take 63 rest ++ t)) same ∙ ap (λ t. c ∷ t) (take-append-drop 63 rest),
    )

replay_deltas_prefix :
    (abort : ℕ → Bool) (fuel calls : ℕ) (text : Text)
    → (rest : List ReplayEvent) × (replay_deltas abort fuel calls text ++ rest
        ≡ replay_deltas never fuel calls text)
unfolding replay_deltas
replay_deltas_prefix abort zero calls text = ([], refl)
replay_deltas_prefix abort (suc fuel) calls [] = elim (Bool-cases (abort calls)) [
  | inl stop ↦ (done ∷ [], rw stop)
  | inr on ↦ ([], rw on)
]
replay_deltas_prefix abort (suc fuel) calls (c ∷ rest) =
    let (missing, same) = replay_deltas_prefix abort fuel (suc calls) (drop 63 rest) in
    elim (Bool-cases (abort calls)) [
      | inl stop ↦
          (delta (c ∷ take 63 rest) ∷ replay_deltas never fuel (suc calls) (drop 63 rest), rw stop)
      | inr on ↦ (missing, rw on (ap (λ es. delta (c ∷ take 63 rest) ∷ es) same))
    ]

-- A replay that is not aborted is one `meta`, then deltas of 1 to 64 code units that join to the
-- cached text, then one `done`, whatever the text.
pub replay_whole :
    (text : Text)
    → (es : List ReplayEvent) × (replay never text ≡ meta ∷ es) × IsDeltas es × (text_of es ≡ text)
unfolding replay
replay_whole text =
    let (shape, same) = replay_deltas_whole (suc (length text)) 1 text (omega arith) in
    (replay_deltas never (suc (length text)) 1 text, refl, shape, same)

-- Whenever the client goes away, what was sent is a beginning of the whole replay.
pub replay_prefix :
    (abort : ℕ → Bool) (text : Text)
    → (rest : List ReplayEvent) × (replay abort text ++ rest ≡ replay never text)
unfolding replay
replay_prefix abort text = elim (Bool-cases (abort 0)) [
  | inl stop ↦ (replay never text, unfold replay in rw stop)
  | inr on ↦
      let (missing, same) = replay_deltas_prefix abort (suc (length text)) 1 text in
      (missing, rw on (ap (λ es. meta ∷ es) same))
]
