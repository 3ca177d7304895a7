-- ===== src/Router/Auth/ClaimChecks.antt =====
-- validateClaims, check by check. A number in a token is of the type F, with the instant that
-- `time.Unix` makes of it.
use alya.Prelude.{
  List, [], ◌∷◌, Option, none, some, String, Bool, true, false, not, str_eq, if◌then◌else◌, ltb,
}
use alya.Prelude.Int.{ℤ, pos, negsuc, ◌+ℤ◌}
use alya.Prelude.Result.{Result, ok, err, ◌>>◌, guard}
use alya.Router.Errors.{get_text}
use alya.Router.Auth.Types.{
  Claim, number, text, Claims, AuthMiddleware, AuthError, token_expired, missing_claim,
  not_valid_yet, issued_in_future, invalid_issuer,
}

-- `x < y`
abbrev pub before : ℤ → ℤ → Bool
before (pos m) (pos n) = ltb m n
before (pos m) (negsuc n) = false
before (negsuc m) (pos n) = true
before (negsuc m) (negsuc n) = ltb n m

-- A claim is there, whatever it holds.
abbrev pub is_claimed : {F : Type 0} → Claims F → String → Bool
is_claimed claims name = elim (get_text name claims) [ none ↦ false | some c ↦ true ]

module _ {F : Type 0} (unix : F → ℤ) where
  unfoldable pub check_exp : ℤ → Option (Claim F) → Result AuthError (Unit {0})
  check_exp now (some (number x)) = guard (not (before (unix x) now)) token_expired
  check_exp now c = err (missing_claim "exp")

  unfoldable pub check_nbf : ℤ → Option (Claim F) → Result AuthError (Unit {0})
  check_nbf now (some (number x)) = guard (not (before now (unix x))) not_valid_yet
  check_nbf now c = ok tt

  unfoldable pub check_iat : ℤ → Option (Claim F) → Result AuthError (Unit {0})
  check_iat now (some (number x)) =
      guard (not (before (now +ℤ pos 5000000000) (unix x))) issued_in_future
  check_iat now c = ok tt

unfoldable pub check_issuer : {F : Type 0} → String → Option (Claim F) → Result AuthError (Unit {0})
check_issuer issuer_url c = if str_eq issuer_url "" then ok tt else elim c [
  | none ↦ err (missing_claim "iss")
  | some claim ↦ elim claim [
    | text iss ↦ guard (str_eq iss issuer_url) invalid_issuer
    | _ ↦ err (missing_claim "iss")
  ]
]

unfoldable pub check_required : {F : Type 0} → List String → Claims F → Result AuthError (Unit {0})
check_required [] claims = ok tt
check_required (name ∷ rest) claims =
    let later = check_required rest claims in
    if is_claimed claims name then later else err (missing_claim name)

module _ {F C W : Type 0} (unix : F → ℤ) where
  unfoldable pub validate_claims : AuthMiddleware F C W → ℤ → Claims F → Result AuthError (Unit {0})
  validate_claims a now claims = do
    check_exp unix now (get_text "exp" claims)
    check_nbf unix now (get_text "nbf" claims)
    check_iat unix now (get_text "iat" claims)
    check_issuer a.issuer_url (get_text "iss" claims)
    check_required a.required_claims claims
