-- ===== src/Catalog/Pacing/Waits.antt =====
-- How long a refresh waits, and how often it sends one request.
use models_db.Prelude.{
  ℕ, zero, suc, ◌+◌, ◌-◌, ◌*◌, ◌^◌, ◌≤◌, ◌<◌, String, ◌≡◌, ◌≢◌, refl, Bool, true, false, Option,
  none, some, List, [], ◌∷◌, arith, ltb, min, length, All, Bool-cases, if◌then◌else◌, str_eq,
  Option-cases, inl, inr, ap, eq_iff, subst, sym, ◌∙◌, ◌⊎◌,
}
use native.Mathlib.Nat.{add-zero, zero-add, pow-suc, one-le-pow, le-mul_of_pos_right}
use models_db.Prelude.Int.{ℤ, pos, negsuc, min_ℤ, wrap64, ◌≤ℤ◌}
use models_db.Catalog.Pacing.{
  second, retry_first_wait, retry_wait_cap, max_retries, slow_down, doubled, Response, failed,
  answered, retry_wait, retry_loop, get_with_retry, atoi_nonneg,
}

regroup : (w p : ℕ) → (w * 2 * p ≡ 2 * (w * p)) × (w * (p * 2) ≡ 2 * (w * p))
regroup w p = (grind arith, grind arith)

-- The loop stops at the cap or doubles all the way.
doubled-min :
    (attempt w : ℕ)
    → 0 < w
    → min (doubled attempt w) retry_wait_cap ≡ min (w * 2 ^ attempt) retry_wait_cap
unfolding doubled
doubled-min zero w h = omega arith
doubled-min (suc attempt) w h =
    let grows : w ≤ w * 2 ^ attempt = le-mul_of_pos_right w (one-le-pow attempt 2 (omega arith)) in
    let power : w * 2 ^ suc attempt ≡ 2 * (w * 2 ^ attempt) =
      rw pow-suc (regroup w (2 ^ attempt)).1 in
    let same = (regroup w (2 ^ attempt)).0 in
    elim (Bool-cases (ltb w retry_wait_cap)) [
      | inl below ↦ rw below (omega (arith, doubled-min attempt (w * 2) (omega arith), power, same))
      | inr above ↦
          let capped : retry_wait_cap ≤ w = ground arith in rw above (omega (arith, power, grows))
    ]

abbrev pub backoff : ℕ → ℤ
backoff attempt = pos (min (retry_first_wait * 2 ^ attempt) retry_wait_cap)

min_ℤ-pos : (a b : ℕ) → min_ℤ (pos a) (pos b) ≡ pos (min a b)
min_ℤ-pos a b = ground arith

doubled_wait :
    (attempt : ℕ)
    → min_ℤ (pos (doubled attempt retry_first_wait)) (pos retry_wait_cap) ≡ backoff attempt
doubled_wait attempt = rw min_ℤ-pos (ap pos (doubled-min attempt retry_first_wait (omega arith)))

wrap64-small : (n : ℕ) → n < 2 ^ 63 → wrap64 n ≡ pos n
unfolding wrap64
wrap64-small n h = ground arith

wrap64-negative : (n : ℕ) → 2 ^ 63 ≤ n → n < 2 ^ 64 → wrap64 n ≤ℤ negsuc 0
unfolding wrap64
wrap64-negative n h k = ground arith

-- The wait that a Retry-After header asks for: its seconds, or the time until its date, or none.
abbrev pub asked_wait : (String → Option ℕ) → String → ℕ → Option ℕ
asked_wait http_time header now = if str_eq header "" then none else elim (atoi_nonneg header) [
  | some secs ↦ some (secs * second)
  | none ↦ elim (http_time header) [ some at ↦ some (at - now) | none ↦ none ]
]

-- The wait before a retry is the one that the header asks for, and without one, or with one that is
-- neither a number of seconds nor a date, two seconds doubled for each retry made; in either case it
-- is a minute at most. This is where the nanoseconds of the seconds asked for, if any, fit an int64.
pub retry_wait_lem :
    (http_time : String → Option ℕ) (header : String) (attempt now : ℕ)
    → ((secs : ℕ) → atoi_nonneg header ≡ some secs → secs * second < 2 ^ 63)
    → retry_wait http_time header attempt now
      ≡ pos (
          min
            (elim (asked_wait http_time header now) [
              | none ↦ retry_first_wait * 2 ^ attempt
              | some d ↦ d
            ])
            retry_wait_cap)
unfolding retry_wait
retry_wait_lem http_time header attempt now fits = elim (Option-cases (atoi_nonneg header)) [
  | inl none_asked ↦ elim (Option-cases (http_time header)) [
    | inl no_date ↦ ground (arith, doubled_wait attempt)
    | inr (at, dated) ↦ ground (arith, doubled_wait attempt, min_ℤ-pos (at - now) retry_wait_cap)
  ]
  | inr (secs, asked) ↦ ground (
    arith,
    doubled_wait attempt,
    wrap64-small (secs * second) (fits secs asked),
    min_ℤ-pos (secs * second) retry_wait_cap,
  )
]

module _ (http_time : String → Option ℕ) (header : String) (attempt now : ℕ) where
  -- A wait is never more than a minute, whatever the header says.
  pub retry_wait-le : retry_wait http_time header attempt now ≤ℤ pos retry_wait_cap
  unfolding retry_wait
  retry_wait-le = ground arith

  -- From 2^63 nanoseconds on, to 2^64, a Retry-After in seconds wraps to a negative duration: the
  -- retry is sent with no wait at all.
  pub retry_wait_wraps :
      (secs : ℕ)
      → header ≢ ""
      → atoi_nonneg header ≡ some secs
      → 2 ^ 63 ≤ secs * second
      → secs * second < 2 ^ 64
      → retry_wait http_time header attempt now ≤ℤ negsuc 0
  unfolding retry_wait
  retry_wait_wraps secs e a low high =
      ground (arith, eq_iff header "", wrap64-negative (secs * second) low high)

abbrev pub is_slow : Response → Bool
is_slow failed = false
is_slow (answered status header) = slow_down status

module _ (http_time : String → Option ℕ) (client : ℕ → Response) (clock : ℕ → ℕ) where
  -- What the loop returns from an attempt, by the number of its waits.
  abbrev Settles : ℕ → ℕ → Response × List ℤ → Type 0
  Settles attempt left r =
      (length r.1 ≤ left)
      × (r.0 ≡ client (attempt + length r.1))
      × ((i : ℕ) → i < length r.1 → is_slow (client (attempt + i)) ≡ true)
      × (length r.1 < left → is_slow (client (attempt + length r.1)) ≡ false)
      × All (λ w. w ≤ℤ pos retry_wait_cap) r.1

  Settles-now :
      (attempt left : ℕ) (r : Response × List ℤ)
      → r ≡ (client attempt, [])
      → (0 < left → is_slow (client attempt) ≡ false)
      → Settles attempt left r
  Settles-now attempt left r e settled = subst (Settles attempt left) (sym e) (
    omega arith,
    ap client (omega arith),
    λ i h. absurd (omega arith),
    λ h. rw add-zero (settled h),
    tt,
  )

  Settles-later :
      (attempt left : ℕ) (r : Response × List ℤ) (w : ℤ)
      → is_slow (client attempt) ≡ true
      → w ≤ℤ pos retry_wait_cap
      → Settles (suc attempt) left r
      → Settles attempt (suc left) (r.0, w ∷ r.1)
  Settles-later attempt left r w slow bounded (few, last, before, settled, all) =
      let shift : (n : ℕ) → client (suc attempt + n) ≡ client (attempt + suc n) =
        λ n. ap client (omega arith) in
      (
        omega (arith, few),
        last ∙ shift (length r.1),
        elim [
          | zero ↦ λ h. rw add-zero slow
          | suc i ↦ λ h. rw (← shift i) (before i (omega (arith, h)))
        ],
        λ h. rw (← shift (length r.1)) (settled (omega (arith, h))),
        (bounded, all),
      )

  abbrev later : ℕ → ℕ → Response × List ℤ
  later attempt left = retry_loop http_time client clock (suc attempt) left

  -- One round of the loop.
  retry_step :
      (attempt left : ℕ) (x : Response)
      → client attempt ≡ x
      → ((is_slow x ≡ false)
          × (retry_loop http_time client clock attempt (suc left) ≡ (client attempt, [])))
        ⊎ ((header : String) × (is_slow x ≡ true)
            × (retry_loop http_time client clock attempt (suc left) ≡ (
              (later attempt left).0,
              retry_wait http_time header attempt (clock attempt) ∷ (later attempt left).1,
            )))
  unfolding retry_loop
  retry_step attempt left failed e = inl (refl, ground arith)
  retry_step attempt left (answered status header) e = elim (Bool-cases (slow_down status)) [
    | inl slow ↦ inr (header, slow, ground arith)
    | inr fine ↦ inl (fine, ground arith)
  ]

  retry_loop-Settles :
      (attempt left : ℕ) → Settles attempt left (retry_loop http_time client clock attempt left)
  retry_loop-Settles attempt zero =
      Settles-now attempt zero (retry_loop http_time client clock attempt zero)
        (unfold retry_loop in refl) (λ h. absurd (omega arith))
  retry_loop-Settles attempt (suc left) = elim (retry_step attempt left (client attempt) refl) [
    | inl (fine, e) ↦
        Settles-now attempt (suc left) (retry_loop http_time client clock attempt (suc left)) e
          (λ _. fine)
    | inr (header, slow, e) ↦ subst (Settles attempt (suc left)) (sym e) (
        Settles-later attempt left (later attempt left)
          (retry_wait http_time header attempt (clock attempt)) slow
          (retry_wait-le http_time header attempt (clock attempt))
          (retry_loop-Settles (suc attempt) left))
  ]

  -- A request is sent again exactly while the response asks to ease off, five times at most: with n
  -- the number of waits, n is at most five, the response returned is that of the request after n
  -- retries, every one before it was a 429 or a 503, it is neither unless n is five, and no wait is
  -- over a minute.
  pub get_with_retry-settles :
      let r = get_with_retry http_time client clock in
      (length r.1 ≤ max_retries)
      × (r.0 ≡ client (length r.1))
      × ((i : ℕ) → i < length r.1 → is_slow (client i) ≡ true)
      × (length r.1 < max_retries → is_slow (client (length r.1)) ≡ false)
      × All (λ w. w ≤ℤ pos retry_wait_cap) r.1
  unfolding get_with_retry
  get_with_retry-settles =
      let (few, last, before, settled, all) = retry_loop-Settles 0 max_retries in
      (
        few,
        last ∙ ap client (zero-add _),
        λ i h. ap (λ n. is_slow (client n)) (sym (zero-add i)) ∙ before i h,
        λ h. ap (λ n. is_slow (client n)) (sym (zero-add _)) ∙ settled h,
        all,
      )
