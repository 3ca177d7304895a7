-- ===== src/DiGen/Load/Literal.antt =====
-- The text functions of cmd/alya-di/load.go: the quotes of a literal, and the last part of a path.
use Prim.Native.String.{String, [], ◌∷◌, len}
use alya.Prelude.{Option, some, none, Bool, false, ltb, str_eq, starts_with, if◌then◌else◌}

-- `strings.Trim(raw, cut)` for one character `cut`, as two functions.
unfoldable pub trim_left : String → String → String
trim_left cut [] = []
trim_left cut (c ∷ s) =
    let rest = trim_left cut s in if starts_with (c ∷ s) cut then rest else c ∷ s

unfoldable pub trim_right : String → String → String
trim_right cut [] = []
trim_right cut (c ∷ s) =
    let rest = trim_right cut s in
    if str_eq rest "" then (if starts_with (c ∷ []) cut then [] else c ∷ []) else c ∷ rest

unfoldable pub has_slash : String → Bool
has_slash [] = false
has_slash (c ∷ s) = let rest = has_slash s in if starts_with (c ∷ s) "/" then Bool.true else rest

unfoldable pub after_slashes : String → String
unfolding has_slash
after_slashes [] = []
after_slashes (c ∷ s) =
    let rest = after_slashes s in
    if has_slash s then rest else if starts_with (c ∷ s) "/" then s else c ∷ s

-- `filepath.Base`.
unfoldable pub path_base : String → String
unfolding trim_right after_slashes
path_base path =
    let stripped = trim_right "/" path in
    if str_eq path "" then "." else if str_eq stripped "" then "/" else after_slashes stripped

-- `none` is the error.
unfoldable pub string_literal_value : String → Option String
unfolding trim_left trim_right
string_literal_value raw =
    if ltb (len raw) 2 then none else some (trim_right "\"" (trim_left "\"" raw))
