-- ===== src/Backend/Hashes.antt =====
-- crates/stratosync-core/src/hashes.rs: the spellings of a content hash. The decoders of the four Base64
-- engines are the parameter `decoders`, in the order in which they are tried.
use Prim.Native.Char.{code}
use Prim.Native.String
use stratosync.Common.{
  ℕ, ◌+◌, ◌-◌, ◌/◌, ◌%◌, ◌==◌, String, Bool, true, false, ◌&&◌, ◌||◌, Option, none, some, List, [],
  ◌∷◌, leb, str_eq, if◌then◌else◌,
}
use stratosync.Config.Parse.{is_whitespace}

-- `trim`
abbrev trim_start : String → String
trim_start String.[] = ""
trim_start (String.◌∷◌ c s) =
    let rest = trim_start s in if is_whitespace (code c) then rest else String.◌∷◌ c s

abbrev trim_end : String → String
trim_end String.[] = ""
trim_end (String.◌∷◌ c s) =
    let rest = trim_end s in
    if str_eq rest "" && is_whitespace (code c) then "" else String.◌∷◌ c rest

-- `is_ascii_hexdigit`, and the value of such a digit.
abbrev is_hex : ℕ → Bool
is_hex n = (leb b'0' n && leb n b'9') || (leb b'a' n && leb n b'f') || (leb b'A' n && leb n b'F')

abbrev value : ℕ → ℕ
value n = if leb n b'9' then n - b'0' else if leb n b'F' then n - b'A' + 10 else n - b'a' + 10

abbrev digit : ℕ → String
digit v = String.slice "0123456789abcdef" v (v + 1)

abbrev all_hex : String → Bool
all_hex String.[] = true
all_hex (String.◌∷◌ c s) = is_hex (code c) && all_hex s

-- `to_ascii_lowercase`, of hexadecimal digits.
abbrev lower : String → String
lower String.[] = ""
lower (String.◌∷◌ c s) = String.◌++◌ (digit (value (code c))) (lower s)

-- `{b:02x}`, byte by byte.
abbrev in_hex : List ℕ → String
in_hex [] = ""
in_hex (b ∷ bs) = String.◌++◌ (digit (b / 16)) (String.◌++◌ (digit (b % 16)) (in_hex bs))

abbrev decoded : List (String → Option (List ℕ)) → String → Option String
decoded [] s = none
decoded (d ∷ ds) s = elim (d s) [ none ↦ decoded ds s | some bytes ↦ some (in_hex bytes) ]

module _ (decoders : List (String → Option (List ℕ))) where
  abbrev of_trimmed : String → Option String
  of_trimmed s =
      if str_eq s ""
      then none
      else if String.len s % 2 == 0 && all_hex s
      then some (lower s)
      else decoded decoders s

  unfoldable pub hash_to_hex : String → Option String
  hash_to_hex s = of_trimmed (trim_end (trim_start s))

  abbrev names_it : String → List String → Bool
  names_it stored [] = false
  names_it stored (h ∷ hs) = elim (hash_to_hex h) [
    | none ↦ names_it stored hs
    | some t ↦ str_eq t stored || names_it stored hs
  ]

  -- Over the values of the map.
  unfoldable pub etag_matches_hashes : String → List String → Bool
  etag_matches_hashes stored hashes = elim (hash_to_hex stored) [
    | none ↦ false
    | some t ↦ names_it t hashes
  ]
