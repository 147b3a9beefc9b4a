-- ===== src/Receiver/Origins.antt =====
-- The origin check against its four rules.
use toll_calc.Common.{
  ◌≡◌, refl, ◌∙◌, Bool, true, false, ◌||◌, Option, none, some, List, [], ◌∷◌, arith, Bool-cases,
  inl, inr,
}
use toll_calc.Common.Int.{pos, ◌≤ℤ◌}
use toll_calc.Common.Eq.{◌==◌, List-Eq, ℕ-Eq}
use toll_calc.Common.Map.{Map, lookup, contains, insert, contains-insert}
use toll_calc.Common.Text.{Text, text, is_empty, anonymous_not_eq}
use toll_calc.Common.Strings.{split, trim_space, equal_fold}
use toll_calc.Receiver.{add_origins, parse_origins, origin_allowed, read_limit}

-- Is the text one of the trimmed pieces?
abbrev pub listed : Text → List Text → Bool
listed x [] = false
listed x (p ∷ ps) = trim_space p == x || listed x ps

contains-add_origins :
    (x : Text) (ps : List Text) (m : Map Text (Unit {0}))
    → is_empty x ≡ false
    → contains x (add_origins ps m) ≡ (listed x ps || contains x m)
unfolding add_origins
contains-add_origins x [] m named = refl
contains-add_origins x (p ∷ ps) m named = ground (
  arith,
  contains-add_origins x ps m named,
  contains-add_origins x ps (insert (trim_space p) tt m) named,
  contains-insert (trim_space p) x tt m,
  anonymous_not_eq (trim_space p) x,
)

or_false : (b : Bool) → (b || false) ≡ b
or_false true = refl
or_false false = refl

contains-parse_origins :
    (x value : Text)
    → is_empty x ≡ false
    → contains x (parse_origins value) ≡ listed x (split b',' value)
unfolding parse_origins contains lookup
contains-parse_origins x value named =
    contains-add_origins x (split b',' value) [] named ∙ or_false (listed x (split b',' value))

-- An upgrade is allowed exactly when the request has no origin, or the comma-separated setting lists
-- "*" or the origin itself, or the origin's host is the request's host up to case.
pub origin_allowed_rules :
    (parse_host : Text → Option Text) (origin host value : Text)
    → origin_allowed parse_host origin host (parse_origins value) ≡ (
        is_empty origin
        || listed (text "*") (split b',' value)
        || listed origin (split b',' value)
        || elim (parse_host origin) [ none ↦ false | some h ↦ equal_fold h host ])
unfolding origin_allowed
origin_allowed_rules parse_host origin host value = elim (Bool-cases (is_empty origin)) [
  | inl absent ↦ rw absent
  | inr named ↦ rw (
    named,
    contains-parse_origins (text "*") value refl,
    contains-parse_origins origin value named,
  )
]

-- The read limit is positive, whatever the setting holds.
pub read_limit_positive : (value : Text) → pos 1 ≤ℤ read_limit value
unfolding read_limit
read_limit_positive value = ground arith
