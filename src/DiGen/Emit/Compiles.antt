-- ===== src/DiGen/Emit/Compiles.antt =====
-- Go's rule for the short variable declarations of a block.
use alya.Prelude.{
  List, [], ◌∷◌, ◌++◌, map, String, Bool, true, false, ◌≡◌, inl, inr, arith, str_eq, Bool-cases, In,
  here, there, if◌then◌else◌, In-append_right,
}
use alya.DiGen.Resolve.{has}
use alya.DiGen.Emit.Defs.{Step, define, return_on_error, push_cleanup, run, BuildFile}

-- Go refuses a `:=` that declares no new name in its block.
abbrev pub all_in : List String → List String → Bool
all_in [] scope = true
all_in (n ∷ ns) scope = if has n scope then all_in ns scope else false

unfoldable pub compiles : List String → List Step → Bool
compiles scope [] = true
compiles scope (define names called args ∷ ss) =
    let rest = compiles (names ++ scope) ss in if all_in names scope then false else rest
compiles scope (return_on_error ∷ ss) = compiles scope ss
compiles scope (push_cleanup c ∷ ss) = compiles scope ss
compiles scope (run called args ∷ ss) = compiles scope ss

-- The block of Build: its parameters, the two names that it declares first, and the steps.
abbrev pub build_compiles : BuildFile → Bool
build_compiles f =
    compiles ("runCleanups" ∷ "cleanups" ∷ map (λ (p : String × String). p.0) f.params)
      (f.provider_steps ++ f.invoke_steps)

has-append_right : (k : String) (xs ys : List String) → has k ys ≡ true → has k (xs ++ ys) ≡ true
has-append_right k [] ys h = h
has-append_right k (x ∷ xs) ys h = ground (arith, has-append_right k xs ys h)

has-append_left : (k : String) (xs ys : List String) → has k xs ≡ true → has k (xs ++ ys) ≡ true
has-append_left k [] ys h = cc
has-append_left k (x ∷ xs) ys h = elim (Bool-cases (str_eq x k)) [
  | inl e ↦ ground arith
  | inr e ↦ let rest = has-append_left k xs ys (ground arith) in ground arith
]

-- Where `err` is declared, `err :=` alone is refused.
compiles-again :
    (scope : List String) (ss : List Step) (called : String) (args : List String)
    → has "err" scope ≡ true
    → In (define ("err" ∷ []) called args) ss
    → compiles scope ss ≡ false
unfolding compiles
compiles-again scope [] called args e m = elim m [ ]
compiles-again scope (_ ∷ ss) called args e here = ground arith
compiles-again scope (define names c a ∷ ss) called args e (there m) =
    let rest =
      compiles-again (names ++ scope) ss called args (has-append_right "err" names scope e) m in
    elim (Bool-cases (all_in names scope)) [ inl all ↦ ground arith | inr new ↦ ground arith ]
compiles-again scope (return_on_error ∷ ss) called args e (there m) =
    compiles-again scope ss called args e m
compiles-again scope (push_cleanup c ∷ ss) called args e (there m) =
    compiles-again scope ss called args e m
compiles-again scope (run c a ∷ ss) called args e (there m) =
    compiles-again scope ss called args e m

-- A statement that declares `err`, with or without others.
unfoldable pub DeclaresErr : Step → Type 0
DeclaresErr (define names called args) = has "err" names ≡ true
DeclaresErr _ = ⊥

pub compiles-twice :
    (scope : List String) (first : List Step) (step : Step) (second : List Step) (called : String)
    (args : List String)
    → In step first
    → DeclaresErr step
    → In (define ("err" ∷ []) called args) second
    → compiles scope (first ++ second) ≡ false
unfolding compiles DeclaresErr
compiles-twice scope [] step second called args k err m = elim k [ ]
compiles-twice scope (define names c a ∷ ss) _ second called args here err m =
    let rest =
      compiles-again (names ++ scope) (ss ++ second) called args
        (has-append_left "err" names scope err) (In-append_right ss second m) in
    elim (Bool-cases (all_in names scope)) [ inl all ↦ ground arith | inr new ↦ ground arith ]
compiles-twice scope (define names c a ∷ ss) step second called args (there k) err m =
    let rest = compiles-twice (names ++ scope) ss step second called args k err m in
    elim (Bool-cases (all_in names scope)) [ inl all ↦ ground arith | inr new ↦ ground arith ]
compiles-twice scope (return_on_error ∷ ss) _ second called args here err m = elim err [ ]
compiles-twice scope (push_cleanup c ∷ ss) _ second called args here err m = elim err [ ]
compiles-twice scope (run c a ∷ ss) _ second called args here err m = elim err [ ]
compiles-twice scope (return_on_error ∷ ss) step second called args (there k) err m =
    compiles-twice scope ss step second called args k err m
compiles-twice scope (push_cleanup c ∷ ss) step second called args (there k) err m =
    compiles-twice scope ss step second called args k err m
compiles-twice scope (run c a ∷ ss) step second called args (there k) err m =
    compiles-twice scope ss step second called args k err m
