-- ===== src/Media/Range.antt =====
-- `parseSingleRange` of apps/gateway/src/media/range.js. A range is given by its start and by the
-- byte after its end, since the end is -1 for an empty file.
use Prim.Native.Char.{code}
use creator_first_platform.Base.{
  ℕ, ◌+◌, ◌-◌, ◌*◌, String, Bool, true, false, Option, none, some, ◌&&◌, ◌==◌, leb, ltb,
  if◌then◌else◌,
}
use creator_first_platform.Base.Tests.{str_eq}

-- `Number.isSafeInteger` of a natural number
abbrev pub is_safe : ℕ → Bool
is_safe n = ltb n 9007199254740992

abbrev is_digit : ℕ → Bool
is_digit c = leb 48 c && leb c 57

abbrev number_of : Bool → ℕ → Option ℕ
number_of false n = none
number_of true n = some n

-- `\d*` with the number it reads, after digits of the value `n`, and the text behind it
unfoldable pub digits : Bool → ℕ → String → Option ℕ × String
digits started n String.[] = (number_of started n, "")
digits started n (String.◌∷◌ c s) =
    let rest = digits true (n * 10 + (code c - 48)) s in
    if is_digit (code c) then rest else (number_of started n, String.◌∷◌ c s)

-- the text behind a prefix
unfoldable pub behind : String → String → Option String
behind String.[] s = some s
behind (String.◌∷◌ p ps) String.[] = none
behind (String.◌∷◌ p ps) (String.◌∷◌ c s) =
    let rest = behind ps s in if code p == code c then rest else none

abbrev is_empty : String → Bool
is_empty String.[] = true
is_empty (String.◌∷◌ _ _) = false

abbrev second : Option ℕ → Option ℕ × String → Option (Option ℕ × Option ℕ)
second first (last, s) = if is_empty s then some (first, last) else none

abbrev first : Option ℕ × String → Option (Option ℕ × Option ℕ)
first (a, s) = elim (behind "-" s) [ none ↦ none | some t ↦ second a (digits false 0 t) ]

-- `/^bytes=(\d*)-(\d*)$/`: the two groups, `none` for an empty one
unfoldable pub match_range : String → Option (Option ℕ × Option ℕ)
unfolding behind digits
match_range header = elim (behind "bytes=" header) [
  | none ↦ none
  | some s ↦ first (digits false 0 s)
]

pub record ByteRange : Type 0 where
  pub start : ℕ
  -- `end + 1`
  pub stop : ℕ
  pub partial : Bool

abbrev pub stop_of : Option ℕ → ℕ → ℕ
stop_of none size = size
stop_of (some last) size = last + 1

-- the last test of the function, and `Math.min(end, size - 1)`
unfoldable pub check_range : ℕ → ℕ → ℕ → Option ByteRange
check_range start stop size =
    if is_safe start && leb stop 9007199254740992 && ltb start stop && ltb start size
    then some
        (record { start = start; stop = if leb stop size then stop else size; partial = true })
    else none

-- `none` is a RangeError.
unfoldable pub resolve_range : Option ℕ × Option ℕ → ℕ → Option ByteRange
unfolding check_range
resolve_range (none, none) size = none
resolve_range (none, some suffix) size =
    if is_safe suffix && ltb 0 suffix then check_range (size - suffix) size size else none
resolve_range (some a, last) size = check_range a (stop_of last size) size

abbrev resolve_match : Option (Option ℕ × Option ℕ) → ℕ → Option ByteRange
resolve_match none size = none
resolve_match (some groups) size = resolve_range groups size

-- `trim` is the method of JavaScript texts.
unfoldable pub parse_single_range : (String → String) → Option String → ℕ → Option ByteRange
unfolding resolve_range match_range
parse_single_range trim none size = some (record { start = 0; stop = size; partial = false })
parse_single_range trim (some header) size =
    if str_eq header ""
    then some (record { start = 0; stop = size; partial = false })
    else resolve_match (match_range (trim header)) size
