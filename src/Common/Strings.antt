-- ===== src/Common/Strings.antt =====
-- The functions of package `strings` that the services call, on ASCII text.
use toll_calc.Common.{
  not, Option, none, some, ℕ, ◌+◌, ◌≡◌, ◌≢◌, refl, arith, Bool, true, false, ◌&&◌, ◌||◌, List, [],
  ◌∷◌, leb, nat_eq, if◌then◌else◌,
}
use toll_calc.Common.Eq.{List-Eq, ℕ-Eq}
use toll_calc.Common.Text.{Text, text, is_empty}

-- The white space of ASCII: tab to carriage return, and the blank.
abbrev pub is_space : ℕ → Bool
is_space c = leb 9 c && leb c 13 || nat_eq c 32

trim_left : Text → Text
trim_left [] = []
trim_left (c ∷ cs) = let rest = trim_left cs in if is_space c then rest else c ∷ cs

trim_right : Text → Text
trim_right [] = []
trim_right (c ∷ cs) =
    let rest = trim_right cs in if is_space c && is_empty rest then [] else c ∷ rest

-- `strings.TrimSpace(s)`
unfoldable pub trim_space : Text → Text
unfolding trim_left trim_right
trim_space s = trim_right (trim_left s)

abbrev first_piece : ℕ → List Text → List Text
first_piece c [] = (c ∷ []) ∷ []
first_piece c (p ∷ ps) = (c ∷ p) ∷ ps

-- `strings.Split(s, sep)` for a separator of one byte: at least one piece.
unfoldable pub split : ℕ → Text → List Text
split sep [] = [] ∷ []
split sep (c ∷ cs) =
    let rest = split sep cs in if nat_eq c sep then [] ∷ rest else first_piece c rest

pub split-ne-empty : (sep : ℕ) (s : Text) → split sep s ≢ []
unfolding split
split-ne-empty sep [] = ground arith
split-ne-empty sep (c ∷ cs) = elim (split sep cs) [ [] ↦ ground arith | p ∷ ps ↦ ground arith ]

abbrev lower : ℕ → ℕ
lower c = if leb b'A' c && leb c b'Z' then c + 32 else c

-- `strings.EqualFold(s, t)`
unfoldable pub equal_fold : Text → Text → Bool
equal_fold [] [] = true
equal_fold (c ∷ s) (d ∷ t) = nat_eq (lower c) (lower d) && equal_fold s t
equal_fold _ _ = false

-- `strings.ToLower(s)`
unfoldable pub to_lower : Text → Text
to_lower [] = []
to_lower (c ∷ s) = lower c ∷ to_lower s

-- `strings.HasPrefix(s, prefix)` and `s[len(prefix):]`; `none` says that it has not.
unfoldable pub after_prefix : (prefix s : Text) → Option Text
after_prefix [] s = some s
after_prefix (c ∷ p) [] = none
after_prefix (c ∷ p) (d ∷ s) = if nat_eq c d then after_prefix p s else none

abbrev prepend : ℕ → Option Text → Option Text
prepend c none = none
prepend c (some s) = some (c ∷ s)

-- `s[:strings.Index(s, sep)]` for a separator of one byte; `none` is the index -1.
unfoldable pub before_byte : ℕ → Text → Option Text
before_byte sep [] = none
before_byte sep (c ∷ cs) =
    let rest = before_byte sep cs in if nat_eq c sep then some [] else prepend c rest

abbrev join_field : ℕ → (in_field : Bool) → List Text → List Text
join_field c true (p ∷ ps) = (c ∷ p) ∷ ps
join_field c _ ps = (c ∷ []) ∷ ps

abbrev starts_field : Text → Bool
starts_field [] = false
starts_field (c ∷ cs) = not (is_space c)

-- `strings.Fields(s)`: the runs of bytes that are no white space.
unfoldable pub fields : Text → List Text
fields [] = []
fields (c ∷ cs) =
    let rest = fields cs in if is_space c then rest else join_field c (starts_field cs) rest

string_examples :
    (trim_space (text "  a b ") ≡ text "a b")
    × (split b',' (text "a,,b") ≡ text "a" ∷ [] ∷ text "b" ∷ [])
    × (split b',' [] ≡ [] ∷ [])
    × (equal_fold (text "LocalHost:80") (text "localhost:80") ≡ true)
    × (to_lower (text "GRPC") ≡ text "grpc")
    × (after_prefix (text "ab") (text "abc") ≡ some (text "c"))
    × (before_byte b'"' (text "0.5\"} 7") ≡ some (text "0.5"))
    × (fields (text " ab  c d ") ≡ text "ab" ∷ text "c" ∷ text "d" ∷ [])
unfolding trim_space split equal_fold to_lower after_prefix before_byte fields
string_examples = (refl, refl, refl, refl, refl, refl, refl, refl)
