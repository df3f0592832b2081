-- ===== src/Cliutil.antt =====
-- dns/internal/cliutil/env.go: the defaults of flags from the environment. A variable is its value,
-- or `none` where it is not set; `time.ParseDuration` and `strconv.ParseBool` are arguments.
pub mod Lists
use nixos_kaiba_network.Prelude.{
  ℕ, Bool, not, ◌||◌, Option, none, some, List, [], ◌∷◌, ◌++◌, Bytes, is_empty, any, leb,
  if◌then◌else◌, Result, ok, err, ◌>>=◌, ◌>>◌, refuse_if,
}
use nixos_kaiba_network.Prelude.Decimal.{value, is_digit}
use nixos_kaiba_network.Controller.Request.{trim_space}
use nixos_kaiba_network.Identity.Workload.{split}

-- The value of a variable does not parse, or a flag has no value.
pub data FlagError : Type 0 where
  unparsable empty_value : FlagError

unfoldable pub env : Option Bytes → Bytes → Bytes
env none fallback = fallback
env (some text) fallback = text

or_invalid : {A : Type 0} → Option A → Result FlagError A
or_invalid none = err unparsable
or_invalid (some a) = ok a

-- `EnvDuration` and `EnvBool`, with the parser of the type.
unfoldable pub env_parsed :
    {A : Type 0} → (Bytes → Option A) → Option Bytes → A → Result FlagError A
unfolding or_invalid
env_parsed parse none fallback = ok fallback
env_parsed parse (some text) fallback = or_invalid (parse text)

-- `strconv.ParseUint(value, 10, 32)`
unfoldable pub parse_uint32 : Bytes → Option ℕ
parse_uint32 text =
    if is_empty text || any (λ c. not (is_digit c)) text
    then none
    else if leb (value 0 text) 4294967295
    then some (value 0 text)
    else none

unfoldable pub env_uint32 : Option Bytes → ℕ → Result FlagError ℕ
unfolding env_parsed parse_uint32
env_uint32 text fallback = env_parsed parse_uint32 text fallback

-- The items of a list that are not blank, without the spaces around them.
unfoldable pub trimmed_items : List Bytes → List Bytes
trimmed_items [] = []
trimmed_items (part ∷ parts) =
    let rest = trimmed_items parts in
    if is_empty (trim_space part) then rest else trim_space part ∷ rest

-- `os.Getenv` returns an empty text for a variable that is not set.
unfoldable pub csv_env : Option Bytes → List Bytes
unfolding env trimmed_items
csv_env text =
    let line = trim_space (env text []) in
    if is_empty line then [] else trimmed_items (split b',' line)

-- `StringList.Set`, for a flag that may be repeated.
unfoldable pub set_item : List Bytes → Bytes → Result FlagError (List Bytes)
set_item list text = do refuse_if (is_empty text) empty_value; ok (list ++ (text ∷ []))

-- A flag given once for each text.
unfoldable pub set_items : List Bytes → List Bytes → Result FlagError (List Bytes)
unfolding set_item
set_items list [] = ok list
set_items list (text ∷ texts) = do longer ← set_item list text; set_items longer texts
