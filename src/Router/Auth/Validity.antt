-- ===== src/Router/Auth/Validity.antt =====
-- What validateClaims asks of a token's claims.
use alya.Prelude.{
  List, [], ◌∷◌, Option, none, some, String, true, false, str_eq, str_eq_iff, ◌≡◌, ◌≢◌, ◌↔◌, inl,
  inr, refl, arith, All, Bool-cases,
}
use alya.Prelude.Int.{ℤ, pos, ◌+ℤ◌}
use alya.Prelude.Result.{ok, >>-eq-ok}
use alya.Router.Errors.{get_text}
use alya.Router.Auth.Types.{Claim, number, text, Claims, AuthMiddleware}
use alya.Router.Auth.ClaimChecks.{
  before, is_claimed, check_exp, check_nbf, check_iat, check_issuer, check_required,
  validate_claims,
}

module _ {F : Type 0} (unix : F → ℤ) (now : ℤ) where
  -- What is asked of each claim: an expiry that is not before now, no beginning after now, and no
  -- issue more than five seconds after now.
  abbrev pub Expires : Option (Claim F) → Type 0
  Expires c = (x : F) × (c ≡ some (number x)) × (before (unix x) now ≡ false)

  abbrev pub HasBegun : Option (Claim F) → Type 0
  HasBegun c = (x : F) → c ≡ some (number x) → before now (unix x) ≡ false

  abbrev pub WasIssued : Option (Claim F) → Type 0
  WasIssued c = (x : F) → c ≡ some (number x) → before (now +ℤ pos 5000000000) (unix x) ≡ false

  check_exp_iff : (c : Option (Claim F)) → (check_exp unix now c ≡ ok tt) ↔ Expires c
  unfolding check_exp
  check_exp_iff (some (number x)) =
      (λ h. (x, refl, ground arith), λ (h : Expires (some (number x))). ground (arith, h.1, h.2))
  check_exp_iff c = (λ h. cc, λ (h : Expires c). ground (arith, h.1))

  check_nbf_iff : (c : Option (Claim F)) → (check_nbf unix now c ≡ ok tt) ↔ HasBegun c
  unfolding check_nbf
  check_nbf_iff (some (number x)) =
      (λ h y e. ground arith, λ (h : HasBegun (some (number x))). ground (arith, h x refl))
  check_nbf_iff c = (λ h y e. cc, λ h. refl)

  check_iat_iff : (c : Option (Claim F)) → (check_iat unix now c ≡ ok tt) ↔ WasIssued c
  unfolding check_iat
  check_iat_iff (some (number x)) =
      (λ h y e. ground arith, λ (h : WasIssued (some (number x))). ground (arith, h x refl))
  check_iat_iff c = (λ h y e. cc, λ h. refl)

-- Where an issuer is configured, it is the token's.
abbrev pub IsIssuedBy : {F : Type 0} → String → Option (Claim F) → Type 0
IsIssuedBy issuer_url c = issuer_url ≢ "" → c ≡ some (text issuer_url)

check_issuer_iff :
    {F : Type 0} (issuer_url : String) (c : Option (Claim F))
    → (check_issuer issuer_url c ≡ ok tt) ↔ IsIssuedBy issuer_url c
unfolding check_issuer
check_issuer_iff {F} issuer_url c = elim (Bool-cases (str_eq issuer_url "")) [
  | inl e ↦
      let is : issuer_url ≡ "" = (str_eq_iff issuer_url "").0 e in
      (λ h n. absurd (n is), λ h. ground arith)
  | inr e ↦
      (λ h n. forward c h e, λ h. backward c (h (λ is. ground (arith, str_eq_iff issuer_url ""))) e)
]
  where
    forward :
        (c : Option (Claim F))
        → check_issuer issuer_url c ≡ ok tt
        → str_eq issuer_url "" ≡ false
        → c ≡ some (text issuer_url)
    forward none h e = ground arith
    forward (some (text t)) h e = ground (arith, str_eq_iff t issuer_url)
    forward (some o) h e = ground arith

    backward :
        (c : Option (Claim F))
        → c ≡ some (text issuer_url)
        → str_eq issuer_url "" ≡ false
        → check_issuer issuer_url c ≡ ok tt
    backward c h e = ground (arith, str_eq_iff issuer_url issuer_url)

check_required_iff :
    {F : Type 0} (names : List String) (claims : Claims F)
    → (check_required names claims ≡ ok tt) ↔ All (λ name. is_claimed claims name ≡ true) names
unfolding check_required
check_required_iff [] claims = (λ h. tt, λ h. refl)
check_required_iff (name ∷ rest) claims = (
  λ h. (ground arith, (check_required_iff rest claims).0 (ground arith)),
  λ (h : All (λ name. is_claimed claims name ≡ true) (name ∷ rest)).
      let later = (check_required_iff rest claims).1 h.1 in let first = h.0 in ground arith,
)

pub record AreValid {F C W : Type 0} (unix : F → ℤ) (a : AuthMiddleware F C W) (now : ℤ)
    (claims : Claims F) : Type 0 where
  pub expires : Expires unix now (get_text "exp" claims)
  pub begun : HasBegun unix now (get_text "nbf" claims)
  pub issued : WasIssued unix now (get_text "iat" claims)
  pub issuer : IsIssuedBy a.issuer_url (get_text "iss" claims)
  pub required : All (λ name. is_claimed claims name ≡ true) a.required_claims

module _ {F C W : Type 0} (unix : F → ℤ) (a : AuthMiddleware F C W) (now : ℤ)
    (claims : Claims F) where
  pub validate_claims_only : validate_claims unix a now claims ≡ ok tt → AreValid unix a now claims
  unfolding validate_claims
  validate_claims_only h =
      let (e1, h1) = >>-eq-ok (check_exp unix now (get_text "exp" claims)) _ h in
      let (e2, h2) = >>-eq-ok (check_nbf unix now (get_text "nbf" claims)) _ h1 in
      let (e3, h3) = >>-eq-ok (check_iat unix now (get_text "iat" claims)) _ h2 in
      let (e4, h4) = >>-eq-ok (check_issuer a.issuer_url (get_text "iss" claims)) _ h3 in
      record {
        expires = (check_exp_iff unix now _).0 e1;
        begun = (check_nbf_iff unix now _).0 e2;
        issued = (check_iat_iff unix now _).0 e3;
        issuer = (check_issuer_iff a.issuer_url _).0 e4;
        required = (check_required_iff a.required_claims claims).0 h4;
      }

  pub validate_claims_if : AreValid unix a now claims → validate_claims unix a now claims ≡ ok tt
  unfolding validate_claims
  validate_claims_if v =
      rw
        (
          (check_exp_iff unix now (get_text "exp" claims)).1 v.expires,
          (check_nbf_iff unix now (get_text "nbf" claims)).1 v.begun,
          (check_iat_iff unix now (get_text "iat" claims)).1 v.issued,
          (check_issuer_iff a.issuer_url (get_text "iss" claims)).1 v.issuer,
        )
        ((check_required_iff a.required_claims claims).1 v.required)
