-- ===== src/Relays/Operations.antt =====
-- The map `operations` of both relayers, in the order of its insertions, and the tests of texts and
-- deadlines that they share.
use Prim.Native.Char.{code}
use creator_first_platform.Base.{
  ℕ, zero, suc, ◌+◌, String, Bool, true, false, Option, none, some, List, [], ◌∷◌, ◌&&◌, ◌||◌, not,
  ◌==◌, ltb, leb, str_eq, if◌then◌else◌,
}
use creator_first_platform.Base.Table.{select, insert}
use creator_first_platform.Base.Exec.{Exec, pure, require, ◌>>◌}
use creator_first_platform.Base.Exec.Codes.{idempotency_conflict}

-- `${member}:${input.idempotencyKey}`
pub record OperationKey : Type 0 where
  pub wallet : ℕ
  pub idempotency_key : String

abbrev pub operation_key : ℕ → String → OperationKey
operation_key wallet key = record { wallet = wallet; idempotency_key = key }

abbrev pub same_key : OperationKey → OperationKey → Bool
same_key a b = a.wallet == b.wallet && str_eq a.idempotency_key b.idempotency_key

-- `{ hash, promise }` under its key; the promise is the run with that number.
pub record Operation : Type 0 where
  pub key : OperationKey
  pub hash : ℕ
  pub run_id : ℕ

abbrev pub has_operation_key : OperationKey → Operation → Bool
has_operation_key k o = same_key o.key k

unfoldable pub length {ℓ} : {A : Type ℓ} → List A → ℕ
length [] = 0
length (x ∷ xs) = suc (length xs)

abbrev pub without_first {ℓ} : {A : Type ℓ} → List A → List A
without_first [] = []
without_first (x ∷ xs) = xs

-- `operations.delete`
unfoldable pub delete_operation : OperationKey → List Operation → List Operation
delete_operation k [] = []
delete_operation k (o ∷ ops) =
    let rest = delete_operation k ops in if has_operation_key k o then rest else o ∷ rest

-- What a relay does to the map for a key that it has not: the oldest one of 512 makes room.
unfoldable pub keep_operation : Operation → List Operation → List Operation
keep_operation o ops = insert o (if leb 512 (length ops) then without_first ops else ops)

-- The lookup of a relay: the run to wait for, or none where a new one is to start
unfoldable pub prior_run : OperationKey → ℕ → Exec (List Operation) (Option ℕ)
prior_run k hash ops = elim (select (has_operation_key k) ops) [
  | none ↦ pure none ops
  | some o ↦ (do require (o.hash == hash) 409 idempotency_conflict; pure (some o.run_id)) ops
]

abbrev is_between : ℕ → ℕ → ℕ → Bool
is_between a b n = leb a n && leb n b

-- `[0-9a-fA-F]`
abbrev pub is_hex_digit : ℕ → Bool
is_hex_digit n = is_between 48 57 n || is_between 97 102 n || is_between 65 70 n

-- `[0-9a-fA-F]{n}$`
unfoldable pub is_hex : ℕ → String → Bool
is_hex n String.[] = n == 0
is_hex zero (String.◌∷◌ c s) = false
is_hex (suc n) (String.◌∷◌ c s) = let rest = is_hex n s in is_hex_digit (code c) && rest

-- `^0x[0-9a-fA-F]{n}$`
unfoldable pub is_hex_text : ℕ → String → Bool
is_hex_text n (String.◌∷◌ a (String.◌∷◌ b s)) = code a == 48 && code b == 120 && is_hex n s
is_hex_text n _ = false

-- `deadline < now || deadline > now + MAX_INTENT_LIFETIME_SECONDS`
abbrev pub is_out_of_time : ℕ → ℕ → Bool
is_out_of_time deadline now = ltb deadline now || ltb (now + 900) deadline

-- A change of the map: a relay that finds no operation of its key, or one that has failed
pub data MapStep : Type 0 where
  keeps : Operation → MapStep
  deletes : OperationKey → MapStep

unfoldable pub map_step : List Operation → MapStep → List Operation
map_step ops (keeps o) = keep_operation o ops
map_step ops (deletes k) = delete_operation k ops

unfoldable pub map_run : List Operation → List MapStep → List Operation
map_run ops [] = ops
map_run ops (e ∷ es) = map_run (map_step ops e) es

abbrev pub is_of_other : Operation → MapStep → Bool
is_of_other o (keeps p) = not (has_operation_key o.key p)
is_of_other o (deletes k) = not (has_operation_key k o)

-- No step is of the key of an operation.
unfoldable pub all_of_others : Operation → List MapStep → Bool
all_of_others o [] = true
all_of_others o (e ∷ es) = is_of_other o e && all_of_others o es

unfoldable pub count_keeps : List MapStep → ℕ
count_keeps [] = 0
count_keeps (keeps o ∷ es) = suc (count_keeps es)
count_keeps (deletes k ∷ es) = count_keeps es
