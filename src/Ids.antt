-- ===== src/Ids.antt =====
-- vsm/ids.py: the form of an identifier, and the event id that follows from the idempotency key.
-- `json.dumps` and `hashlib.sha256(...).hexdigest()` are parameters; `new_id` draws a random UUID
-- and is not modelled.
use Prim.Native.Char.{code}
use nanihold_os.Prelude.{
  ℕ, ◌+◌, String, Bool, false, ◌&&◌, ◌||◌, List, [], ◌∷◌, length, leb, nat_eq, if◌then◌else◌,
  concat,
}
use nanihold_os.Result.{Result, ok, err, invariant_violation}

abbrev codes : String → List ℕ
codes String.[] = []
codes (String.◌∷◌ c s) = code c ∷ codes s

abbrev is_lower : ℕ → Bool
is_lower c = leb b'a' c && leb c b'z'

abbrev is_digit : ℕ → Bool
is_digit c = leb b'0' c && leb c b'9'

-- `[a-z0-9_-]`
abbrev is_kind_code : ℕ → Bool
is_kind_code c = is_lower c || is_digit c || nat_eq c b'_' || nat_eq c b'-'

-- `[A-Za-z0-9._~-]`
abbrev is_name_code : ℕ → Bool
is_name_code c =
    is_lower c
    || (leb b'A' c && leb c b'Z')
    || is_digit c
    || nat_eq c b'.'
    || nat_eq c b'_'
    || nat_eq c b'~'
    || nat_eq c b'-'

-- `[A-Za-z0-9._~-]{1,160}` to the end of the text, with `n` characters read.
abbrev matches_name : ℕ → List ℕ → Bool
matches_name n [] = leb 1 n && leb n 160
matches_name n (c ∷ rest) = is_name_code c && matches_name (n + 1) rest

-- `[a-z0-9_-]{1,31}:` with `n` characters read, then the name. A colon is no character of the kind.
abbrev matches_kind : ℕ → List ℕ → Bool
matches_kind n [] = false
matches_kind n (c ∷ rest) =
    let more = matches_kind (n + 1) rest in
    if nat_eq c b':' then leb 1 n && leb n 31 && matches_name 0 rest else is_kind_code c && more

abbrev matches_id : List ℕ → Bool
matches_id [] = false
matches_id (c ∷ rest) = is_lower c && matches_kind 0 rest

-- `Identifier` of vsm/kernel/models.py, whose pattern is the same.
abbrev pub is_identifier : String → Bool
is_identifier s = matches_id (codes s)

-- `NonBlank` of vsm/kernel/models.py: from 1 to 512 characters.
abbrev pub is_non_blank : String → Bool
is_non_blank s = leb 1 (length (codes s)) && leb (length (codes s)) 512

unfoldable pub validate_id : String → Result String
validate_id value =
    if matches_id (codes value)
    then ok value
    else err (invariant_violation "invalid Nanihold identifier")

-- What the program takes from Python's library.
pub record Platform : Type 0 where
  pub json_dumps : List (String × String) → String
  pub sha256 : String → String

-- The pairs stand in the order of their keys, as `sort_keys=True` puts them.
unfoldable pub deterministic_event_id : Platform → String → String → String → Result String
unfolding validate_id
deterministic_event_id p data_space_id stream_id idempotency_key = validate_id (
    concat "event:" (
      p.sha256 (
        p.json_dumps (
          ("data_space_id", data_space_id)
          ∷ ("idempotency_key", idempotency_key)
          ∷ ("stream_id", stream_id)
          ∷ []))))
