-- ===== src/Actions/Retry.antt =====
-- apps/actions/webhook_retry.py, and the backoff of apps/actions/delivery.py. The header comes
-- from `http.client`, which decodes it as Latin-1; the parser of HTTP dates is Python's, and
-- `seconds_until` is what it leads to: the seconds from now to the date, none where it refuses.
use storage_service.Prelude.{
  ℕ, ◌-◌, ◌*◌, ◌^◌, ◌≤◌, Bool, true, false, not, ◌&&◌, ◌||◌, List, [], ◌∷◌, Option, none, some,
  arith, ◌==◌, leb, ltb, if◌then◌else◌, any, all, min, max, length,
}
use storage_service.Prelude.Outcome.{Outcome, ok, raised}
use storage_service.Text.{Text, is_empty}
use storage_service.Text.Trim.{strip}
use storage_service.Text.Decimal.{value_from}

abbrev pub permanent_http_statuses : List ℕ
permanent_http_statuses = 400 ∷ 401 ∷ 403 ∷ 405 ∷ 410 ∷ 413 ∷ 422 ∷ []

abbrev pub retryable_http_statuses : List ℕ
retryable_http_statuses = 404 ∷ 408 ∷ 409 ∷ 425 ∷ 429 ∷ []

abbrev pub max_backoff_seconds : ℕ
max_backoff_seconds = 3600

abbrev pub one_of : List ℕ → ℕ → Bool
one_of statuses status = any (λ s. s == status) statuses

unfoldable pub is_permanent_http_status : Option ℕ → Bool
is_permanent_http_status none = false
is_permanent_http_status (some status) =
    if one_of permanent_http_statuses status
    then true
    else if one_of retryable_http_statuses status
    then false
    else if leb 500 status && ltb status 600
    then false
    else if leb 400 status && ltb status 500
    then false
    else false

-- `str.isdigit()` on Latin-1: the decimal digits, and the superscripts 2, 3 and 1, which `int`
-- does not read.
abbrev pub is_decimal_char : ℕ → Bool
is_decimal_char c = leb 48 c && leb c 57

abbrev pub is_digit_char : ℕ → Bool
is_digit_char c = is_decimal_char c || (c == 0xb2) || (c == 0xb3) || (c == 0xb9)

abbrev pub is_digits : Text → Bool
is_digits s = not (is_empty s) && all is_digit_char s

pub data ValueError : Type 0 where
  invalid_literal : ValueError

-- Python's limit on the digits that `int` reads.
abbrev pub max_str_digits : ℕ
max_str_digits = 4300

-- `int(raw)` for a text of digit characters.
abbrev pub int_of_digits : Text → Outcome ValueError ℕ
int_of_digits raw =
    if all is_decimal_char raw && leb (length raw) max_str_digits
    then ok (value_from 0 raw)
    else raised invalid_literal

abbrev pub some_seconds : Outcome ValueError ℕ → Outcome ValueError (Option ℕ)
some_seconds (ok seconds) = ok (some seconds)
some_seconds (raised e) = raised e

abbrev pub parse_raw : (Text → Option ℕ) → Text → Outcome ValueError (Option ℕ)
parse_raw seconds_until raw =
    if is_empty raw
    then ok none
    else if is_digits raw
    then some_seconds (int_of_digits raw)
    else ok (seconds_until raw)

unfoldable pub parse_retry_after_header :
    (Text → Option ℕ) → Option Text → Outcome ValueError (Option ℕ)
parse_retry_after_header seconds_until none = ok none
parse_retry_after_header seconds_until (some value) = parse_raw seconds_until (strip value)

abbrev pub honors_retry_after : Option ℕ → Bool
honors_retry_after none = false
honors_retry_after (some status) = (status == 429) || (status == 503)

abbrev pub longer_wait : Bool → ℕ → Option ℕ → ℕ
longer_wait honored delay none = delay
longer_wait honored delay (some seconds) = if honored then max delay seconds else delay

unfoldable pub compute_retry_delay_seconds : ℕ → Option ℕ → Option ℕ → ℕ → ℕ
compute_retry_delay_seconds attempt_number http_status retry_after_seconds base_backoff_seconds =
    let delay =
      longer_wait (honors_retry_after http_status) base_backoff_seconds retry_after_seconds in
    min max_backoff_seconds (max 1 delay)

-- `_backoff_seconds`.
unfoldable pub backoff_seconds : ℕ → ℕ
backoff_seconds attempt_number = min 3600 (30 * 2 ^ (attempt_number - 1))

-- The wait that an answer asks for: its `Retry-After`, if its status is 429 or 503.
abbrev pub requested_wait : Option ℕ → Option ℕ → ℕ
requested_wait http_status none = 0
requested_wait http_status (some seconds) = if honors_retry_after http_status then seconds else 0

-- The wait before a retry is between a second and an hour, and up to that hour it is at least the
-- backoff and at least what a `Retry-After` with a status 429 or 503 asks for.
pub retry_delay_bounds :
    (attempt : ℕ) (http_status : Option ℕ) (retry_after : Option ℕ) (base : ℕ)
    → let delay = compute_retry_delay_seconds attempt http_status retry_after base in
      (1 ≤ delay)
      × (delay ≤ 3600)
      × (min 3600 base ≤ delay)
      × (min 3600 (requested_wait http_status retry_after) ≤ delay)
unfolding compute_retry_delay_seconds
retry_delay_bounds attempt http_status none base = ground arith
retry_delay_bounds attempt http_status (some s) base = ground arith
