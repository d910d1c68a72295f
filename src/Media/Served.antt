-- ===== src/Media/Served.antt =====
-- Which bytes a range serves.
use creator_first_platform.Base.{ℕ, ◌+◌, ◌≤◌, ◌<◌, ◌≡◌, ◌≢◌, Bool, Option, none, some, true, arith}
use creator_first_platform.Media.Range.{ByteRange, is_safe, resolve_range, check_range}

-- What the two numbers of a header ask for, of a file of this size: from the first to the last
-- byte, from the first on, or the last ones.
abbrev pub IsRequested : Option ℕ × Option ℕ → ℕ → ℕ → Type 0
IsRequested (none, none) size i = ⊥
IsRequested (none, some suffix) size i = (i < size) × (size ≤ i + suffix)
IsRequested (some a, none) size i = (i < size) × (a ≤ i)
IsRequested (some a, some b) size i = (i < size) × (a ≤ i) × (i ≤ b)

-- A range that is resolved is not empty, lies in the file, and has exactly the bytes that the two
-- numbers of the header ask for.
pub resolve_range_serves :
    (groups : Option ℕ × Option ℕ) (size : ℕ) (r : ByteRange)
    → resolve_range groups size ≡ some r
    → (r.start < r.stop)
      × (r.stop ≤ size)
      × ((i : ℕ) → r.start ≤ i → i < r.stop → IsRequested groups size i)
      × ((i : ℕ) → IsRequested groups size i → (r.start ≤ i) × (i < r.stop))
unfolding resolve_range check_range
resolve_range_serves (none, none) size r h = absurd (ground arith)
resolve_range_serves (none, some n) size r h =
    (ground arith, ground arith, λ i a b. ground arith, λ i q. ground arith)
resolve_range_serves (some a, none) size r h =
    (ground arith, ground arith, λ i b d. ground arith, λ i q. ground arith)
resolve_range_serves (some a, some b) size r h =
    (ground arith, ground arith, λ i d e. ground arith, λ i q. ground arith)

abbrev is_safe_group : Option ℕ → Bool
is_safe_group none = true
is_safe_group (some n) = is_safe n

-- With a file size and numbers of the header that are safe integers, a range that asks for some
-- byte of the file is resolved.
pub resolve_range_answers :
    (groups : Option ℕ × Option ℕ) (size i : ℕ)
    → is_safe size ≡ true
    → is_safe_group groups.0 ≡ true
    → is_safe_group groups.1 ≡ true
    → IsRequested groups size i
    → resolve_range groups size ≢ none
unfolding resolve_range check_range
resolve_range_answers (none, none) size i s x y q h = q
resolve_range_answers (none, some n) size i s x y q h = ground arith
resolve_range_answers (some a, none) size i s x y q h = ground arith
resolve_range_answers (some a, some b) size i s x y q h = ground arith
