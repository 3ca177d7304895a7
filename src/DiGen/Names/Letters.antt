-- ===== src/DiGen/Names/Letters.antt =====
-- The letters of a name (lowerCamel, isUpper and upperFirst of cmd/alya-di/emit.go, typeQualifier
-- and exportedQualifierName of cmd/alya-di/resolve.go).
use Prim.Native.String.{String, [], ◌∷◌, compare}
use text.Mathlib.Text.{is_le, find?}
use alya.Prelude.{
  ◌+◌, Option, none, some, Bool, true, ◌&&◌, str_append, str_eq, slice, if◌then◌else◌,
}
use alya.DiGen.Load.Syntax.{Expr, ident, selector, index, index_list, paren, star}

abbrev pub is_upper : String → Bool
is_upper letter = is_le (compare "A" letter) && is_le (compare letter "Z")

abbrev pub small_letters : String
small_letters = "abcdefghijklmnopqrstuvwxyz"

abbrev pub capital_letters : String
capital_letters = "ABCDEFGHIJKLMNOPQRSTUVWXYZ"

-- A letter from a to z as a capital.
abbrev pub upper_letter : String → String
upper_letter letter = elim (find? small_letters letter) [
  | none ↦ letter
  | some i ↦ slice capital_letters i (i + 1)
]

unfoldable pub upper_first : String → String
upper_first [] = []
upper_first (c ∷ s) = str_append (upper_letter (c ∷ [])) s

-- `to_lower` is `strings.ToLower` of one character.
module _ (to_lower : String → String) where
  -- The loop over `cut`: the capitals after the first character, without the last of them where a
  -- character that is no capital follows it, are lowered.
  unfoldable pub lower_capitals : String → String
  lower_capitals [] = []
  lower_capitals (c ∷ []) = if is_upper (c ∷ []) then to_lower (c ∷ []) else c ∷ []
  lower_capitals (c ∷ d ∷ s) =
      let rest = lower_capitals (d ∷ s) in
      if is_upper (c ∷ [])
      then (if is_upper (d ∷ []) then str_append (to_lower (c ∷ [])) rest else c ∷ d ∷ s)
      else c ∷ d ∷ s

  unfoldable pub lower_camel : String → String
  unfolding lower_capitals
  lower_camel [] = []
  lower_camel (c ∷ s) = str_append (to_lower (c ∷ [])) (lower_capitals s)

unfoldable pub type_qualifier : Expr → String
type_qualifier (paren x) = type_qualifier x
type_qualifier (star x) = type_qualifier x
type_qualifier (index x i) = type_qualifier x
type_qualifier (index_list x is) = type_qualifier x
type_qualifier (selector (ident name p) sel) = name
type_qualifier (selector x sel) = type_qualifier x
type_qualifier _ = ""

-- The parts between underscores, each with its first letter as a capital, joined; `first` at the
-- start of a part.
unfoldable pub exported_parts : Bool → String → String
exported_parts first [] = []
exported_parts first (c ∷ s) =
    let rest = exported_parts (str_eq (c ∷ []) "_") s in
    if str_eq (c ∷ []) "_"
    then rest
    else str_append (if first then upper_letter (c ∷ []) else c ∷ []) rest

-- `parse_expr` is `parser.ParseExpr`.
unfoldable pub output_field_qualifier : (String → Option Expr) → String → String
unfolding type_qualifier exported_parts
output_field_qualifier parse_expr expr = elim (parse_expr expr) [
  | none ↦ ""
  | some parsed ↦ exported_parts true (type_qualifier parsed)
]
