-- ===== src/Routes/Patterns.antt =====
-- Patterns of paths: a part is a literal, or one of the classes of the regular expressions.
use Prim.Native.Char.{code}
use creator_first_platform.Base.{
  ℕ, suc, String, Bool, true, false, Option, none, some, List, [], ◌∷◌, ◌&&◌, ◌||◌, ◌==◌, leb,
  str_eq, if◌then◌else◌,
}

pub data TokenClass : Type 0 where
  -- `[A-Za-z0-9-]+`, `[A-Za-z0-9_-]+`, `[A-Za-z0-9_-]{20,}` and `[A-Za-z0-9_-]{32,128}`
  identifier name session_token link_token : TokenClass

pub data Part : Type 0 where
  literal : String → Part
  token : TokenClass → Part

abbrev is_between : ℕ → ℕ → ℕ → Bool
is_between a b n = leb a n && leb n b

-- `[A-Za-z0-9-]`, and `_` where it is allowed
abbrev is_word : Bool → ℕ → Bool
is_word underscore n =
    is_between 65 90 n
    || is_between 97 122 n
    || is_between 48 57 n
    || n == 45
    || (underscore && n == 95)

unfoldable pub all_words : Bool → String → Bool
all_words underscore String.[] = true
all_words underscore (String.◌∷◌ c s) =
    let rest = all_words underscore s in is_word underscore (code c) && rest

unfoldable pub length : String → ℕ
length String.[] = 0
length (String.◌∷◌ c s) = suc (length s)

unfoldable pub accepts : TokenClass → String → Bool
accepts identifier s = all_words false s && leb 1 (length s)
accepts name s = all_words true s && leb 1 (length s)
accepts session_token s = all_words true s && leb 20 (length s)
accepts link_token s = all_words true s && is_between 32 128 (length s)

abbrev add_token : String → Option (List String) → Option (List String)
add_token s none = none
add_token s (some l) = some (s ∷ l)

-- A match, with the texts that its classes have captured
unfoldable pub match_path : List Part → List String → Option (List String)
match_path [] [] = some []
match_path [] (s ∷ path) = none
match_path (p ∷ pattern) [] = none
match_path (literal a ∷ pattern) (s ∷ path) =
    let rest = match_path pattern path in if str_eq a s then rest else none
match_path (token c ∷ pattern) (s ∷ path) =
    let rest = match_path pattern path in if accepts c s then add_token s rest else none

-- Whether some path can match both patterns
unfoldable pub overlap : List Part → List Part → Bool
overlap [] [] = true
overlap [] (q ∷ qs) = false
overlap (p ∷ ps) [] = false
overlap (literal a ∷ ps) (literal b ∷ qs) = let rest = overlap ps qs in str_eq a b && rest
overlap (literal a ∷ ps) (token c ∷ qs) = let rest = overlap ps qs in accepts c a && rest
overlap (token c ∷ ps) (literal b ∷ qs) = let rest = overlap ps qs in accepts c b && rest
overlap (token c ∷ ps) (token d ∷ qs) = overlap ps qs
