-- ===== src/Info.antt =====
-- internal/utils/redis.go: a value in the reply to `INFO`.
pub mod Laws
use redis_agent.Common.{ℕ, ◌==◌, if◌then◌else◌, Bytes, List, [], ◌∷◌, same_bytes}

abbrev pub onto_first : ℕ → List Bytes → List Bytes
onto_first b [] = (b ∷ []) ∷ []
onto_first b (t ∷ ts) = (b ∷ t) ∷ ts

-- `strings.Split(s, sep)` for a separator of one byte.
unfoldable pub split_byte : ℕ → Bytes → List Bytes
split_byte sep [] = [] ∷ []
split_byte sep (b ∷ s) =
    let rest = split_byte sep s in if b == sep then [] ∷ rest else onto_first b rest

-- `strings.Split(s, "\r\n")`.
unfoldable pub split_lines : Bytes → List Bytes
split_lines [] = [] ∷ []
split_lines (b ∷ []) = (b ∷ []) ∷ []
split_lines (b ∷ c ∷ s) =
    let rest = split_lines s in
    let shifted = split_lines (c ∷ s) in
    if b == 13 then (if c == 10 then [] ∷ rest else onto_first b shifted) else onto_first b shifted

-- The round of the loop on the parts of a line: a line of one part is passed over.
unfoldable pub find_prop : Bytes → List (List Bytes) → Bytes
find_prop prop [] = []
find_prop prop ((name ∷ value ∷ more) ∷ lines) =
    let rest = find_prop prop lines in if same_bytes prop name then value else rest
find_prop prop (parts ∷ lines) = find_prop prop lines

abbrev pub split_all : List Bytes → List (List Bytes)
split_all [] = []
split_all (line ∷ lines) = split_byte 58 line ∷ split_all lines

unfoldable pub parse_info_prop : Bytes → Bytes → Bytes
parse_info_prop info prop = find_prop prop (split_all (split_lines info))
