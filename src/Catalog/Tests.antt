-- ===== src/Catalog/Tests.antt =====
-- Runs of internal/catalog/pacing.go at concrete inputs.
use models_db.Prelude.{
  ℕ, zero, suc, ◌*◌, ◌≤◌, ◌<◌, String, ◌≡◌, refl, true, false, Option, none, some, [], ◌∷◌, arith,
  length, All, str_eq, eq_iff, if◌then◌else◌,
}
use models_db.Prelude.Int.{pos, negsuc, wrap64, ◌≤ℤ◌}
use models_db.Prelude.Text.{codes}
use models_db.Shared.Number.{is_digit, take_digits, take_sign}
use models_db.Catalog.Pacing.{
  second, retry_wait_cap, max_retries, Response, answered, retry_wait, get_with_retry, atoi_nonneg,
  retry_loop, slow_down, doubled,
}
use models_db.Catalog.Pacing.Waits.{is_slow, retry_wait_wraps, get_with_retry-settles}

-- A parser of dates that knows one date.
abbrev one_date : String → Option ℕ
one_date header = if str_eq header "Mon" then some (90 * second) else none

program : Unit {0}
unfolding retry_wait atoi_nonneg take_sign take_digits is_digit codes get_with_retry retry_loop
    slow_down wrap64 doubled
program = tt

-- The first two requests are answered with a 503, the next with a 200.
abbrev server : ℕ → Response
server zero = answered 503 "3"
server (suc zero) = answered 503 ""
server _ = answered 200 ""

test_retries :
    get_with_retry one_date server (λ _. 0)
    ≡ (answered 200 "", pos (3 * second) ∷ pos (4 * second) ∷ [])
unfolding program
test_retries = refl

abbrev nine : String
nine = "9"

-- 10^10 seconds, three centuries.
retry_wait_wraps_example : retry_wait one_date "10000000000" 0 0 ≤ℤ negsuc 0
unfolding program
retry_wait_wraps_example =
    retry_wait_wraps one_date "10000000000" 0 0 10000000000
      (λ e. ground (arith, eq_iff "10000000000" "")) refl (omega arith) (omega arith)

get_with_retry-settles_example :
    let r = get_with_retry one_date server (λ _. 0) in
    (length r.1 ≤ max_retries)
    × (r.0 ≡ server (length r.1))
    × ((i : ℕ) → i < length r.1 → is_slow (server i) ≡ true)
    × (length r.1 < max_retries → is_slow (server (length r.1)) ≡ false)
    × All (λ w. w ≤ℤ pos retry_wait_cap) r.1
get_with_retry-settles_example = get_with_retry-settles one_date server (λ _. 0)
