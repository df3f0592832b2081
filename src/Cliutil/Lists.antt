-- ===== src/Cliutil/Lists.antt =====
-- A list in the environment and the flag that is given once for each of its items.
use nixos_kaiba_network.Prelude.{
  ◌≡◌, refl, ap, ◌∙◌, sym, ◌≤◌, ℕ, Bool, true, false, Option, none, some, List, [], ◌∷◌, ◌++◌,
  append_assoc, append-nil, All, Bytes, is_empty, ok, if◌then◌else◌, arith,
}
use nixos_kaiba_network.Controller.Request.{trim_space}
use nixos_kaiba_network.Identity.Workload.{split}
use nixos_kaiba_network.Cliutil.{
  env_parsed, env, csv_env, trimmed_items, set_item, set_items, parse_uint32, env_uint32,
}

abbrev IsItem : Bytes → Type 0
IsItem text = is_empty text ≡ false

kept-All :
    (item : Bytes) (rest : List Bytes)
    → All IsItem rest
    → All IsItem (if is_empty item then rest else item ∷ rest)
kept-All [] rest h = h
kept-All (c ∷ s) rest h = (refl, h)

trimmed_items-All : (parts : List Bytes) → All IsItem (trimmed_items parts)
unfolding trimmed_items
trimmed_items-All [] = tt
trimmed_items-All (part ∷ parts) =
    kept-All (trim_space part) (trimmed_items parts) (trimmed_items-All parts)

unless_blank-All :
    (blank : Bool) (items : List Bytes)
    → All IsItem items
    → All IsItem (if blank then [] else items)
unless_blank-All true items h = tt
unless_blank-All false items h = h

csv_env-All : (text : Option Bytes) → All IsItem (csv_env text)
unfolding csv_env
csv_env-All text =
    let line = trim_space (env text []) in
    unless_blank-All (is_empty line) (trimmed_items (split b',' line)) (trimmed_items-All _)

set_items-append :
    (list texts : List Bytes) → All IsItem texts → set_items list texts ≡ ok (list ++ texts)
unfolding set_items set_item
set_items-append list [] h = ap ok (sym (append-nil list))
set_items-append list ([] ∷ texts) h = absurd (cc)
set_items-append list ((c ∷ s) ∷ texts) h =
    set_items-append (list ++ ((c ∷ s) ∷ [])) texts h.1
    ∙ ap ok (append_assoc list ((c ∷ s) ∷ []) texts)

-- A list from the environment is the list of a flag that is given once for each of its items: the
-- flag refuses none of them.
pub set_items-csv_env : (text : Option Bytes) → set_items [] (csv_env text) ≡ ok (csv_env text)
set_items-csv_env text = set_items-append [] (csv_env text) (csv_env-All text)

-- A number from the environment fits in 32 bits, as its default does.
pub env_uint32-fits :
    (text : Option Bytes) (fallback n : ℕ)
    → fallback ≤ 4294967295
    → env_uint32 text fallback ≡ ok n
    → n ≤ 4294967295
unfolding env_uint32 env_parsed parse_uint32
env_uint32-fits none fallback n small h = ground arith
env_uint32-fits (some text) fallback n small h = ground arith
