-- ===== src/Media/Tests.antt =====
-- Ranges at concrete inputs.
use creator_first_platform.Base.{ℕ, ◌≤◌, ◌<◌, ◌≡◌, ◌≢◌, refl, none, some, true, arith}
use creator_first_platform.Media.Range.{
  ByteRange, resolve_range, check_range, match_range, behind, digits, parse_single_range,
}
use creator_first_platform.Media.Served.{IsRequested, resolve_range_serves, resolve_range_answers}

abbrev last_hundred : ByteRange
last_hundred = record { start = 900; stop = 1000; partial = true }

parsed_suffix : parse_single_range (λ s. s) (some "bytes=-100") 1000 ≡ some last_hundred
unfolding parse_single_range match_range behind digits resolve_range check_range
parsed_suffix = refl

parsed_long_end :
    parse_single_range (λ s. s) (some "bytes=990-2000") 1000
    ≡ some (record { start = 990; stop = 1000; partial = true })
unfolding parse_single_range match_range behind digits resolve_range check_range
parsed_long_end = refl

parsed_behind_end : parse_single_range (λ s. s) (some "bytes=1000-") 1000 ≡ none
unfolding parse_single_range match_range behind digits resolve_range check_range
parsed_behind_end = refl

parsed_two_ranges : parse_single_range (λ s. s) (some "bytes=0-1,5-6") 1000 ≡ none
unfolding parse_single_range match_range behind digits resolve_range check_range
parsed_two_ranges = refl

resolve_range_serves_example :
    (900 < 1000)
    × (1000 ≤ 1000)
    × ((i : ℕ) → 900 ≤ i → i < 1000 → IsRequested (none, some 100) 1000 i)
    × ((i : ℕ) → IsRequested (none, some 100) 1000 i → (900 ≤ i) × (i < 1000))
unfolding resolve_range check_range
resolve_range_serves_example = resolve_range_serves (none, some 100) 1000 last_hundred refl

resolve_range_answers_example : resolve_range (some 990, some 2000) 1000 ≢ none
resolve_range_answers_example =
    resolve_range_answers (some 990, some 2000) 1000 995 refl refl refl
      (omega arith, omega arith, omega arith)
