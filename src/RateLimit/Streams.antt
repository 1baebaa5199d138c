-- ===== src/RateLimit/Streams.antt =====
-- The limit on concurrent streams: `checkConcurrentStreams` and `releaseStream` of
-- src/rate-limit/smart-rate-limiter.service.ts as src/guards/smart-rate-limit-guard.ts and
-- src/common/interceptors/stream-cleanup.interceptor.ts call them, for one key and any number of gateway requests
-- whose Redis commands interleave. Redis runs each command atomically; between INCR and DECR of a refused request
-- other requests may run. The counter's key does not expire.
use ai_provider_gateway.Prelude.{
  ℕ, zero, suc, ◌+◌, ◌-◌, ◌≤◌, ◌<◌, ◌≡◌, refl, subst, true, false, le→leb, arith,
}
use ai_provider_gateway.Prelude.Int.{ℤ, pos, negsuc, incr, decr, leb_nat}

-- The counter; the streams that took a slot and run; those that were let in without one and run; the refused
-- requests that have still to send their DECR; the slots of streams that ended without a DECR; the DECRs of streams
-- that had no slot.
pub record Streams : Type 0 where
  pub count : ℤ
  pub running : ℕ
  pub unslotted : ℕ
  pub refused : ℕ
  pub kept : ℕ
  pub strays : ℕ

abbrev pub idle : Streams
idle = record { count = pos 0; running = 0; unslotted = 0; refused = 0; kept = 0; strays = 0 }

-- admit, refuse: `incr` with `current <= maxConcurrent`, and without; undo: the `decr` that follows a refusal.
-- pass: a stream is let in without `incr`, since the limits are off or Redis cannot be reached.
-- The end of a stream: `releaseStream` sends its `decr` whether or not the stream took a slot (release, stray), or
-- sends none, since Redis cannot be reached or the url does not end in /stream (keep, leave).
pub data Step (most : ℕ) : Streams → Streams → Type 0 where
  admit :
      (s : Streams)
      → leb_nat (incr s.count) most ≡ true
      → Step most s (record s { count = incr s.count; running = s.running + 1 })
  refuse :
      (s : Streams)
      → leb_nat (incr s.count) most ≡ false
      → Step most s (record s { count = incr s.count; refused = s.refused + 1 })
  undo :
      (s : Streams)
      → 0 < s.refused
      → Step most s (record s { count = decr s.count; refused = s.refused - 1 })
  pass : (s : Streams) → Step most s (record s { unslotted = s.unslotted + 1 })
  release :
      (s : Streams)
      → 0 < s.running
      → Step most s (record s { count = decr s.count; running = s.running - 1 })
  keep :
      (s : Streams)
      → 0 < s.running
      → Step most s (record s { running = s.running - 1; kept = s.kept + 1 })
  stray :
      (s : Streams)
      → 0 < s.unslotted
      → Step most s
          (record s { count = decr s.count; unslotted = s.unslotted - 1; strays = s.strays + 1 })
  leave : (s : Streams) → 0 < s.unslotted → Step most s (record s { unslotted = s.unslotted - 1 })

pub data Reach (most : ℕ) : Streams → Streams → Type 0 where
  here : (s : Streams) → Reach most s s
  next : {s t u : Streams} → Reach most s t → Step most t u → Reach most s u

-- `z = a - b`
abbrev pub IsDifference : ℤ → ℕ → ℕ → Type 0
IsDifference (pos k) a b = k + b ≡ a
IsDifference (negsuc k) a b = suc k + a ≡ b

pub record IsCounted (most : ℕ) (s : Streams) : Type 0 where
  pub counted : IsDifference s.count (s.running + s.refused + s.kept) s.strays
  pub within : s.running ≤ most + s.strays

IsDifference-incr : (z : ℤ) (a b c : ℕ) → IsDifference z a b → c ≡ a + 1 → IsDifference (incr z) c b
IsDifference-incr (pos k) a b c h e = omega (arith, h, e)
IsDifference-incr (negsuc zero) a b c h e = omega (arith, h, e)
IsDifference-incr (negsuc (suc k)) a b c h e = omega (arith, h, e)

IsDifference-decr : (z : ℤ) (a b c : ℕ) → IsDifference z a b → a ≡ c + 1 → IsDifference (decr z) c b
IsDifference-decr (pos zero) a b c h e = omega (arith, h, e)
IsDifference-decr (pos (suc k)) a b c h e = omega (arith, h, e)
IsDifference-decr (negsuc k) a b c h e = omega (arith, h, e)

-- A DECR beyond what was taken.
IsDifference-stray :
    (z : ℤ) (a b c : ℕ) → IsDifference z a b → c ≡ b + 1 → IsDifference (decr z) a c
IsDifference-stray (pos zero) a b c h e = omega (arith, h, e)
IsDifference-stray (pos (suc k)) a b c h e = omega (arith, h, e)
IsDifference-stray (negsuc k) a b c h e = omega (arith, h, e)

-- A counter that is within the limit.
IsDifference-le :
    (most : ℕ) (z : ℤ) (a b : ℕ) → IsDifference z a b → leb_nat z most ≡ true → a ≤ most + b
IsDifference-le most (pos k) a b h within = ground arith
IsDifference-le most (negsuc k) a b h within = omega (arith, h)

Step-IsCounted : {most : ℕ} {s t : Streams} → Step most s t → IsCounted most s → IsCounted most t
Step-IsCounted {most = most} (admit s h) v =
    let taken = s.running + 1 + s.refused + s.kept in
    let counted = IsDifference-incr s.count _ s.strays taken v.counted (omega arith) in
    let within = IsDifference-le most (incr s.count) taken s.strays counted h in
    record { counted = counted; within = omega (arith, within) }
Step-IsCounted (refuse s h) v = record {
  counted = IsDifference-incr s.count _ s.strays _ v.counted (omega arith);
  within = v.within;
}
Step-IsCounted (undo s h) v = record {
  counted = IsDifference-decr s.count _ s.strays _ v.counted (omega arith);
  within = v.within;
}
Step-IsCounted (pass s) v = record { counted = v.counted; within = v.within }
Step-IsCounted (release s h) v = record {
  counted = IsDifference-decr s.count _ s.strays _ v.counted (omega arith);
  within = let w = v.within in omega (arith, w);
}
Step-IsCounted (keep s h) v = record {
  counted = subst (λ taken. IsDifference s.count taken s.strays) (omega arith) v.counted;
  within = let w = v.within in omega (arith, w);
}
Step-IsCounted (stray s h) v = record {
  counted = IsDifference-stray s.count _ s.strays _ v.counted refl;
  within = let w = v.within in omega (arith, w);
}
Step-IsCounted (leave s h) v = record { counted = v.counted; within = v.within }

Reach-IsCounted : {most : ℕ} {s t : Streams} → Reach most s t → IsCounted most s → IsCounted most t
Reach-IsCounted (here s) v = v
Reach-IsCounted (next r st) v = Step-IsCounted st (Reach-IsCounted r v)

-- However the commands of the requests interleave, with streams that took no slot and ends that reach no Redis among
-- them, as long as the counter's key does not expire: of the streams that took a slot, no more run at once than `most`
-- and one for each DECR of a stream that had none; and the counter is the running streams, the refused requests that
-- have not sent their DECR and the slots that were not given back, less those stray DECRs.
pub running-le-most : (most : ℕ) (s : Streams) → Reach most idle s → IsCounted most s
running-le-most most s r = Reach-IsCounted r (record { counted = refl; within = omega arith })

-- A full counter, with `running` streams that took a slot.
abbrev full : ℕ → ℕ → ℕ → Streams
full count running strays = record idle { count = pos count; running = running; strays = strays }

fill : (most n : ℕ) → n ≤ most → Reach most idle (full n n 0)
fill most zero h = here idle
fill most (suc n) h =
    subst (λ k. Reach most idle (full (suc n) k 0)) (omega arith)
      (next (fill most n (omega arith)) (admit (full n n 0) (le→leb _ _ h)))

incr-decr : (z : ℤ) → incr (decr z) ≡ z
incr-decr (pos zero) = refl
incr-decr (pos (suc k)) = refl
incr-decr (negsuc k) = refl

-- The stray DECRs do let more streams run than the limit allows: for every number `k`, a run leads to as many streams
-- with a slot as `most` and `k`, after `k` streams that were let in while Redis could not be reached and ended when it
-- could. The counter's key need not expire for it.
pub strays_exceed :
    (most k : ℕ)
    → Reach most idle (record idle { count = pos most; running = most + k; strays = k })
strays_exceed most zero =
    subst (λ n. Reach most idle (full most n 0)) (omega arith) (fill most most (omega arith))
strays_exceed most (suc k) =
    let at : ℤ → ℕ → ℕ → Streams =
      λ count running strays. record idle { count = count; running = running; strays = strays } in
    let before = at (pos most) (most + k) k in
    let passed = record before { unslotted = 1 } in
    let strayed = at (decr (pos most)) (most + k) (k + 1) in
    let same = incr-decr (pos most) in
    let room : leb_nat (incr (decr (pos most))) most ≡ true =
      rw same (le→leb most most (omega arith)) in
    let run : Reach most idle (at (incr (decr (pos most))) (most + k + 1) (k + 1)) =
      next (next (next (strays_exceed most k) (pass before)) (stray passed (omega arith)))
        (admit strayed room) in
    subst (λ count. Reach most idle (at count (most + suc k) (suc k))) same
      (subst (λ n. Reach most idle (at (incr (decr (pos most))) n (suc k))) (omega arith)
        (subst (λ n. Reach most idle (at (incr (decr (pos most))) (most + k + 1) n)) (omega arith)
          run))
