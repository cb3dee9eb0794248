-- ===== src/Plugin/RateLimit/Rate.antt =====
-- The bucket of plugin/ratelimit.go stays within its bounds, and the rate is kept by the calls of one
-- goroutine: nobody else takes the lock while it sleeps.
use native.Mathlib.Nat.{div-add-mod', mod-lt}
use p2p_tun.Prelude.{
  Bool-cases, List, [], ap, arith, inl, inr, leb, length, refl, some, ℕ, ◌*◌, ◌+◌, ◌-◌, ◌/◌, ◌<◌,
  ◌∙◌, ◌∷◌, ◌≡◌, ◌≤◌, ◌⊎◌,
}
use p2p_tun.Plugin.RateLimit.{RateLimit, new_rate_limit, refill, reserve, second, settle, wait}

pub record IsBucket (r : RateLimit) (now : ℕ) : Type 0 where
  pub positive : 0 < r.bytes_per_sec
  pub bounded : r.tokens ≤ r.max_tokens
  pub burst : r.max_tokens ≡ r.bytes_per_sec * second
  pub past : r.last_refill ≤ now

pub IsBucket-later : (r : RateLimit) (t now : ℕ) → IsBucket r t → t ≤ now → IsBucket r now
IsBucket-later r t now b h = omega arith

pub refill-IsBucket :
    (r : RateLimit) (t now : ℕ) → IsBucket r t → t ≤ now → IsBucket (refill r now) now
unfolding refill
refill-IsBucket r t now b h = ground arith

-- What a refill adds is at most what the time is worth.
pub refill_gain :
    (r : RateLimit) (now : ℕ)
    → IsBucket r now
    → (refill r now).tokens + r.last_refill * r.bytes_per_sec ≤ r.tokens + now * r.bytes_per_sec
unfolding refill
refill_gain r now b =
    let e : now - r.last_refill + r.last_refill ≡ now = omega arith in
    ground (arith, ap (λ (t : ℕ). t * r.bytes_per_sec) e)

pub refill_fields :
    (r : RateLimit) (now : ℕ)
    → ((refill r now).bytes_per_sec ≡ r.bytes_per_sec) × ((refill r now).last_refill ≡ now)
unfolding refill
refill_fields r now = (refl, refl)

pub settle_cases :
    (r : RateLimit) (n now : ℕ)
    → ((settle r n now).tokens ≡ 0) ⊎ ((settle r n now).tokens + n * second ≡ (refill r now).tokens)
unfolding settle
settle_cases r n now = ground arith

pub settle-IsBucket :
    (r : RateLimit) (n t now : ℕ) → IsBucket r t → t ≤ now → IsBucket (settle r n now) now
unfolding settle
settle-IsBucket r n t now b h = ground (arith, refill-IsBucket r t now b h)

pub settle_fields :
    (r : RateLimit) (n now : ℕ)
    → ((settle r n now).bytes_per_sec ≡ r.bytes_per_sec) × ((settle r n now).last_refill ≡ now)
unfolding settle refill
settle_fields r n now = (refl, refl)

-- The limiter between the two locks of a call that sleeps, and the time of the second.
abbrev drained : RateLimit → ℕ → RateLimit
drained r now = record (refill r now) { tokens = 0 }

abbrev wakes : RateLimit → ℕ → ℕ → ℕ → ℕ
wakes r n now late = now + (n * second - (refill r now).tokens) / r.bytes_per_sec + late

wait_cases :
    (r : RateLimit) (n now late : ℕ)
    → ((n * second ≤ (refill r now).tokens)
        × (wait r n now late
            ≡ (record (refill r now) { tokens = (refill r now).tokens - n * second }, now)))
      ⊎ (((refill r now).tokens < n * second)
          × (wait r n now late
              ≡ (settle (drained r now) n (wakes r n now late), wakes r n now late)))
unfolding wait reserve
wait_cases r n now late = elim (Bool-cases (leb (n * second) (refill r now).tokens)) [
  | inl e ↦ inl (ground arith, rw e refl)
  | inr e ↦ inr (ground arith, rw ((refill_fields r now).0, e) refl)
]

-- What holds after one call of Wait that returns `(r', end)`: the bytes that it lets through are paid
-- by the tokens and by the time, but for less than one nanosecond's worth.
record Gain (r : RateLimit) (n now : ℕ) (r' : RateLimit) (end : ℕ) : Type 0 where
  bucket : IsBucket r' end
  later : now ≤ end
  stamped : r'.last_refill ≡ end
  same_rate : r'.bytes_per_sec ≡ r.bytes_per_sec
  paid :
      n * second + r'.tokens + r.last_refill * r.bytes_per_sec
      ≤ r.tokens + end * r.bytes_per_sec + r.bytes_per_sec

sleep_paid :
    (r : RateLimit) (n now late : ℕ)
    → IsBucket r now
    → (refill r now).tokens < n * second
    → let end = wakes r n now late in
      n * second + (settle (drained r now) n end).tokens + r.last_refill * r.bytes_per_sec
      ≤ r.tokens + end * r.bytes_per_sec + r.bytes_per_sec
unfolding settle refill
sleep_paid r n now late b short =
    let bps = r.bytes_per_sec in
    let end = wakes r n now late in
    let deficit = n * second - (refill r now).tokens in
    let b' = refill-IsBucket r now now b (omega arith) in
    let d : IsBucket (drained r now) now = ground (arith, b') in
    let d' = IsBucket-later (drained r now) now end d (omega arith) in
    let rate = (refill_fields r now).0 in
    let quotient : deficit < deficit / bps * bps + bps =
      omega (arith, div-add-mod' deficit bps, mod-lt deficit {m = bps} b.positive) in
    elim (settle_cases (drained r now) n end) [
      | inl z ↦ omega (arith, refill_gain r now b, quotient, z)
      | inr z ↦ omega (
        arith,
        refill_gain r now b,
        rw ((refill_fields r now).1, rate) at (refill_gain (drained r now) end d'),
        z,
      )
    ]

wait-Gain :
    (r : RateLimit) (n now late : ℕ)
    → IsBucket r now
    → Gain r n now (wait r n now late).0 (wait r n now late).1
wait-Gain r n now late b =
    let b' = refill-IsBucket r now now b (omega arith) in
    elim (wait_cases r n now late) [
      | inl (enough, e) ↦ rw e (ground (arith, b', refill_gain r now b, refill_fields r now))
      | inr (short, e) ↦
          let end = wakes r n now late in
          let d : IsBucket (drained r now) now = ground (arith, b') in
          rw e (record {
            bucket = settle-IsBucket (drained r now) n now end d (omega arith);
            later = omega arith;
            stamped = (settle_fields (drained r now) n end).1;
            same_rate = (settle_fields (drained r now) n end).0 ∙ (refill_fields r now).0;
            paid = sleep_paid r n now late b short;
          })
    ]

-- A call of Wait: the time since the last one returned, the size, and by how much its sleep overruns.
pub record Call : Type 0 where
  pub gap : ℕ
  pub size : ℕ
  pub late : ℕ

-- Calls of one goroutine, one after the other; the time starts at `now`.
pub run_waits : RateLimit → ℕ → List Call → RateLimit × ℕ
run_waits r now [] = (r, now)
run_waits r now (c ∷ cs) = let (r', end) = wait r c.size (now + c.gap) c.late in run_waits r' end cs

abbrev pub bytes : List Call → ℕ
bytes [] = 0
bytes (c ∷ cs) = c.size + bytes cs

run_waits_paid :
    (cs : List Call) (r : RateLimit) (now : ℕ)
    → IsBucket r now
    → r.last_refill ≡ now
    → let (r', end) = run_waits r now cs in
      bytes cs * second + r'.tokens + now * r.bytes_per_sec
      ≤ r.tokens + end * r.bytes_per_sec + length cs * r.bytes_per_sec
unfolding run_waits
run_waits_paid [] r now b s = omega arith
run_waits_paid (c ∷ cs) r now b s =
    let later = now + c.gap in
    let b' = IsBucket-later r now later b (omega arith) in
    let g = wait-Gain r c.size later c.late b' in
    let (r', end) = wait r c.size later c.late in
    let ih = run_waits_paid cs r' end g.bucket g.stamped in
    let last = (run_waits r' end cs).1 in
    omega (
      arith,
      ih,
      g.paid,
      ap (λ (t : ℕ). t * r.bytes_per_sec) s,
      ap (λ (x : ℕ). end * x) g.same_rate,
      ap (λ (x : ℕ). last * x) g.same_rate,
      ap (λ (x : ℕ). length cs * x) g.same_rate,
    )

run_waits-le :
    (cs : List Call) (r : RateLimit) (now : ℕ) → IsBucket r now → now ≤ (run_waits r now cs).1
unfolding run_waits
run_waits-le [] r now b = omega arith
run_waits-le (c ∷ cs) r now b =
    let later = now + c.gap in
    let g = wait-Gain r c.size later c.late (IsBucket-later r now later b (omega arith)) in
    let (r', end) = wait r c.size later c.late in
    omega (arith, run_waits-le cs r' end g.bucket, g.later)

pub new-IsBucket :
    (bps begin : ℕ) (r : RateLimit)
    → new_rate_limit bps begin ≡ some r
    → IsBucket r begin
      × (r.last_refill ≡ begin)
      × (r.tokens ≡ bps * second)
      × (r.bytes_per_sec ≡ bps)
unfolding new_rate_limit
new-IsBucket bps begin r e = ground arith

-- A new limiter that one goroutine calls, each call after the one before returned, with numbers that
-- are exact where the code has float64: the bytes that the calls let through are at most one second's
-- worth and the worth of the time that has passed, but for one nanosecond's worth for each call. This
-- says nothing of goroutines that sleep in it at the same time.
pub run_waits_rate :
    (bps begin : ℕ) (cs : List Call) (r : RateLimit)
    → new_rate_limit bps begin ≡ some r
    → let (r', end) = run_waits r begin cs in
      bytes cs * second ≤ bps * (second + (end - begin) + length cs)
run_waits_rate bps begin cs r e =
    let (b, s, t, rate) = new-IsBucket bps begin r e in
    let end = (run_waits r begin cs).1 in
    let span : end - begin + begin ≡ end = omega (arith, run_waits-le cs r begin b) in
    omega (
      arith,
      run_waits_paid cs r begin b s,
      t,
      ap (λ (x : ℕ). begin * x) rate,
      ap (λ (x : ℕ). end * x) rate,
      ap (λ (x : ℕ). length cs * x) rate,
      ap (λ (x : ℕ). x * bps) span,
    )
