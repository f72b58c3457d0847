-- ===== src/Catalog/Pacing.antt =====
-- internal/catalog/pacing.go: the pause between requests and the back-off after a refusal. A duration
-- is in nanoseconds, as in Go.
pub mod Waits
use models_db.Prelude.{
  ℕ, zero, suc, ◌+◌, ◌-◌, ◌*◌, ◌%◌, ◌^◌, String, Bool, true, false, ◌&&◌, ◌||◌, not, Option, none,
  some, List, [], ◌∷◌, leb, ltb, nat_eqb, if◌then◌else◌, str_eq, min,
}
use models_db.Prelude.Int.{ℤ, pos, negsuc, min_ℤ, wrap64, sub_ℕ}
use models_db.Prelude.Text.{codes}
use models_db.Shared.Number.{take_sign, take_digits}

abbrev pub second : ℕ
second = 1000000000

abbrev pub pacing_gap : ℕ
pacing_gap = second

abbrev pub pacing_jitter : ℕ
pacing_jitter = 200000000

abbrev pub retry_first_wait : ℕ
retry_first_wait = 2 * second

abbrev pub retry_wait_cap : ℕ
retry_wait_cap = 60 * second

abbrev pub max_retries : ℕ
max_retries = 5

abbrev pub zdr_workers : ℕ
zdr_workers = 8

-- pacer: whether it has sent its first request. The nil pacer of an unpaced run is none.
pub record Pacer : Type 0 where
  pub started : Bool

-- pacer.wait: the pacer afterwards, and the pause. `random` is what rand.Int63n(2*jitter + 1) gives.
unfoldable pub wait : Option Pacer → ℕ → Option Pacer × Option ℕ
wait none random = (none, none)
wait (some p) random =
    if p.started
    then (some p, some (pacing_gap + random % (2 * pacing_jitter + 1) - pacing_jitter))
    else (some (record p { started = true }), none)

-- pacer.workers
unfoldable pub workers : Option Pacer → ℕ
workers none = zdr_workers
workers (some p) = 1

-- slowDown: 429 and 503.
unfoldable pub slow_down : ℕ → Bool
slow_down status = nat_eqb status 429 || nat_eqb status 503

-- `strconv.Atoi`, where it gives a number that is not negative.
unfoldable pub atoi_nonneg : String → Option ℕ
unfolding take_sign take_digits codes
atoi_nonneg h =
    let (negative, unsigned) = take_sign (codes h) in
    let (n, count, rest) = take_digits 0 0 unsigned in
    elim rest [
      | [] ↦
          if nat_eqb count 0
          then none
          else if negative
          then (if nat_eqb n 0 then some 0 else none)
          else if ltb n (2 ^ 63)
          then some n
          else none
      | _ ↦ none
    ]

-- The doubling loop: `for i := 0; i < attempt && wait < retryWaitCap; i++ { wait *= 2 }`.
unfoldable pub doubled : ℕ → ℕ → ℕ
doubled zero w = w
doubled (suc attempt) w =
    let next = doubled attempt (w * 2) in if ltb w retry_wait_cap then next else w

-- A response as the retry loop sees it: no response at all, or a status and the Retry-After header,
-- empty where there is none.
pub data Response : Type 0 where
  failed : Response
  answered : ℕ → String → Response

-- retryWait. `http_time` is http.ParseTime, in nanoseconds, as `now` is.
unfoldable pub retry_wait : (String → Option ℕ) → String → ℕ → ℕ → ℤ
retry_wait http_time header attempt now =
    let backoff = min_ℤ (pos (doubled attempt retry_first_wait)) (pos retry_wait_cap) in
    let dated : ℤ = elim (http_time header) [
      | none ↦ backoff
      | some at ↦ min_ℤ (pos (at - now)) (pos retry_wait_cap)
    ] in
    if str_eq header "" then backoff else elim (atoi_nonneg header) [
      | none ↦ dated
      | some secs ↦ min_ℤ (wrap64 (secs * second)) (pos retry_wait_cap)
    ]

-- The loop of getWithRetry from its `attempt`, with `left` retries to go: what it returns, and how
-- long it waited before each retry. `client` gives the response to each request, `clock` the time at
-- which it is read.
unfoldable pub retry_loop :
    (String → Option ℕ) → (ℕ → Response) → (ℕ → ℕ) → ℕ → ℕ → Response × List ℤ
unfolding slow_down
retry_loop http_time client clock attempt zero = (client attempt, [])
retry_loop http_time client clock attempt (suc left) =
    let later = retry_loop http_time client clock (suc attempt) left in
    elim (client attempt) [
      | failed ↦ (failed, [])
      | answered status header ↦
          if slow_down status
          then (later.0, retry_wait http_time header attempt (clock attempt) ∷ later.1)
          else (answered status header, [])
    ]

-- getWithRetry, after the pacer's pause.
unfoldable pub get_with_retry : (String → Option ℕ) → (ℕ → Response) → (ℕ → ℕ) → Response × List ℤ
unfolding retry_loop
get_with_retry http_time client clock = retry_loop http_time client clock 0 max_retries
