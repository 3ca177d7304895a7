-- ===== src/Router/Auth/Trust.antt =====
-- Where the tokens come from that the middleware lets in by the cache.
use alya.Prelude.{
  List, [], ◌∷◌, Option, none, some, String, Bool, true, str_append, ◌≡◌, ◌⊎◌, inl, inr, sym, arith,
  All, Option-cases, Bool-cases,
}
use mathlib.Core.Path.{subst}
use alya.Prelude.Int.{ℤ, pos}
use alya.Prelude.Result.{ok, Result-cases}
use alya.Router.Errors.{Registry}
use alya.Router.Auth.Types.{Claims, TokenCache, AuthMiddleware, ContextValue, extract_token}
use alya.Router.Auth.ClaimChecks.{before}
use alya.Router.Auth.Cache.{new_redis_token_cache}
use alya.Router.Auth.Verify.{
  verified_claims, is_cached, obtain_claims, verify_token, middleware_func,
}
use alya.Router.Auth.Admission.{middleware_func_iff}

-- What the middleware relies on of a cache: a hit is of a token in it, and a write, which may fail,
-- brings in no other token.
pub record IsFaithful {C : Type 0} (cache : TokenCache C) (Stored : String → C → Type 0)
    : Type 0 where
  pub hit : (token : String) (c : C) → cache.get token c ≡ some true → Stored token c
  pub added :
      (token other : String) (c : C)
      → Stored other (cache.set token c).0
      → (other ≡ token) ⊎ Stored other c

-- The cache on Redis is one, if Redis has only keys that were set.
new_redis_token_cache-IsFaithful :
    {C : Type 0} (exists_call : String → C → Option ℤ) (set_call : String → ℤ → C → C × Bool)
    (expiration : ℤ)
    → let Stored : String → C → Type 0 =
        λ token c. (n : ℤ) × (exists_call token c ≡ some n) × (before (pos 0) n ≡ true) in
      ((token other : String) (d : ℤ) (c : C)
        → Stored other (set_call token d c).0
        → (other ≡ token) ⊎ Stored other c)
      → IsFaithful (new_redis_token_cache exists_call set_call expiration) Stored
unfolding new_redis_token_cache
new_redis_token_cache-IsFaithful exists_call set_call expiration law = record {
  hit = λ token c h. elim (Option-cases (exists_call token c)) [
    | inl e ↦ absurd (ground arith)
    | inr (n, e) ↦ (n, e, ground arith)
  ];
  added = λ token other c h. law token other _ c h;
}

-- What happens to the middleware: a request, or that tokens expire in the cache.
pub data Event (C W : Type 0) : Type 0 where
  request : (w : W) → (now : ℤ) → (header : String) → Event C W
  expiry : (lose : C → C) → Event C W

module _ {F C W : Type 0} (unix : F → ℤ) (parse : String → Option (String × Option (Claims F)))
    (reg : Registry) (a : AuthMiddleware F C W) where
  unfoldable pub serve_all : List (Event C W) → C → C
  serve_all [] c = c
  serve_all (request w now header ∷ es) c =
      serve_all es (middleware_func unix parse reg a w now header c).0
  serve_all (expiry lose ∷ es) c = serve_all es (lose c)

module _ {F C W : Type 0} (a : AuthMiddleware F C W) where
  -- The provider accepted the token at one of the requests.
  abbrev pub Accepted : List (Event C W) → String → Type 0
  Accepted [] token = ⊥
  Accepted (request w now header ∷ es) token =
      ((claims : Claims F) × (a.verifier w token ≡ some (some claims))) ⊎ Accepted es token
  Accepted (expiry lose ∷ es) token = Accepted es token

module _ {C W : Type 0} (Stored : String → C → Type 0) where
  abbrev pub OnlyLoses : Event C W → Type 0
  OnlyLoses (request w now header) = Unit {0}
  OnlyLoses (expiry lose) = (token : String) (c : C) → Stored token (lose c) → Stored token c

module _ {F C W : Type 0} (parse : String → Option (String × Option (Claims F)))
    (a : AuthMiddleware F C W) (w : W) (c : C) where
  -- A request leaves the cache alone, or writes to it a token that the provider accepts.
  abbrev Leaves : C → Type 0
  Leaves c' =
      (c' ≡ c)
      ⊎ ((token : String) × (claims : Claims F) × (a.verifier w token ≡ some (some claims))
          × (c' ≡ (a.cache.set token c).0))

  obtain_claims-Leaves : (token : String) → Leaves (obtain_claims parse a w token c).0
  unfolding obtain_claims verified_claims
  obtain_claims-Leaves token = elim (Bool-cases (is_cached a token c)) [
    | inl e ↦ inl (ground arith)
    | inr e ↦ elim (Option-cases (a.verifier w token)) [
      | inl v ↦ inl (ground arith)
      | inr (none, v) ↦ inl (ground arith)
      | inr (some claims, v) ↦ inr (token, claims, v, ground arith)
    ]
  ]

  middleware_func-Leaves :
      (unix : F → ℤ) (reg : Registry) (now : ℤ) (header : String)
      → Leaves (middleware_func unix parse reg a w now header c).0
  unfolding middleware_func verify_token
  middleware_func-Leaves unix reg now header = elim (Result-cases (extract_token header)) [
    | inr (x, e) ↦ inl (ground arith)
    | inl (token, e) ↦
        let same : (middleware_func unix parse reg a w now header c).0
            ≡ (obtain_claims parse a w token c).0 =
          ground arith in
        subst Leaves (sym same) (obtain_claims-Leaves token)
  ]

module _ {F C W : Type 0} (unix : F → ℤ) (parse : String → Option (String × Option (Claims F)))
    (reg : Registry) (a : AuthMiddleware F C W) {Stored : String → C → Type 0}
    (faithful : IsFaithful a.cache Stored) where
  stored-Accepted :
      (es : List (Event C W)) (c : C) (token : String)
      → All (OnlyLoses Stored) es
      → Stored token (serve_all unix parse reg a es c)
      → Accepted a es token ⊎ Stored token c
  unfolding serve_all
  stored-Accepted [] c token loses h = inr h
  stored-Accepted (expiry lose ∷ es) c token loses h =
      elim (stored-Accepted es (lose c) token loses.1 h) [
        | inl seen ↦ inl seen
        | inr stored ↦ inr (loses.0 token c stored)
      ]
  stored-Accepted (request w now header ∷ es) c token loses h =
      elim (stored-Accepted es (middleware_func unix parse reg a w now header c).0 token loses.1
        h) [
          | inl seen ↦ inl (inr seen)
          | inr stored ↦ elim (middleware_func-Leaves parse a w c unix reg now header) [
            | inl same ↦ inr (subst (Stored token) same stored)
            | inr (t, claims, accepted, same) ↦
                elim (faithful.added t token c (subst (Stored token) same stored)) [
                  | inl is ↦ inl (inl (claims, rw is accepted))
                  | inr before ↦ inr before
                ]
          ]
        ]

  -- A request that is handed on, after any requests and expiries in the cache and from a cache with
  -- no token in it: the provider accepted its token, at this request or at one of those before it.
  -- The cache brings in no other tokens than those written, and an expiry only takes some out.
  pub handed_on-Accepted :
      (es : List (Event C W)) (c : C) (w : W) (now : ℤ) (header : String)
      (keys : List (String × ContextValue F))
      → ((token : String) → Stored token c → ⊥)
      → All (OnlyLoses Stored) es
      → (middleware_func unix parse reg a w now header (serve_all unix parse reg a es c)).1
        ≡ ok keys
      → (token : String) × (header ≡ str_append "Bearer " token)
        × Accepted a (request w now header ∷ es) token
  handed_on-Accepted es c w now header keys empty loses h =
      let (token, claims, split, nonempty, admitted, made) =
        (middleware_func_iff unix parse reg a w now header (serve_all unix parse reg a es c) keys).0
          h in
      (
        token,
        split,
        elim admitted.source [
          | inr fresh ↦ inl (claims, fresh.1)
          | inl cached ↦ elim (stored-Accepted es c token loses (faithful.hit token _ cached.0)) [
            | inl seen ↦ inr seen
            | inr stored ↦ absurd (empty token stored)
          ]
        ],
      )
