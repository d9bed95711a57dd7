-- ===== src/Http/Bearer.antt =====
-- Who passes the authentication.
use Prim.Native.Char.{code}
use insider_banking_project.Base.{
  ℕ, ◌≡◌, ◌≢◌, refl, ap, ◌∙◌, ◌⊎◌, inl, inr, Bool-cases, String, str_eq, eq_iff, Option-cases, none,
  some, ◌++◌, ◌∷◌, ◌==◌, arith,
}
use insider_banking_project.Domain.Error.{codes}
use insider_banking_project.Repository.World.{Result-cases, ok}
use insider_banking_project.Auth.Tokens.{Claims, JwtManager, validate_access_token}
use insider_banking_project.Http.Authentication.{
  passes, unauthorized, bearer_prefix, trim_prefix, auth_middleware, optional_auth_middleware,
  require_user,
}

-- What is left behind a prefix completes it.
trim_prefix_ok :
    (p s : String) {t : String} → trim_prefix p s ≡ some t → codes s ≡ codes p ++ codes t
unfolding trim_prefix
trim_prefix_ok String.[] s h = ground arith
trim_prefix_ok (String.◌∷◌ c p) String.[] h = absurd (ground arith)
trim_prefix_ok (String.◌∷◌ c p) (String.◌∷◌ d s) {t = t} h = elim (Bool-cases (code c == code d)) [
  | inl same ↦
      let rest : trim_prefix p s ≡ some t = ground arith in
      let first : code d ≡ code c = ground arith in
      ap (λ z. code d ∷ z) (trim_prefix_ok p s rest) ∙ ap (λ z. z ∷ (codes p ++ codes t)) first
  | inr other ↦ absurd (ground arith)
]

-- The claims that a header brings: those of a valid access token behind "Bearer ".
abbrev pub Brings : JwtManager → ℕ → String → Claims → Type 0
Brings m now header c =
    (token : String) × (codes header ≡ codes "Bearer " ++ codes token)
    × (token ≢ "")
    × (validate_access_token m now token ≡ ok c)

module _ (m : JwtManager) (now : ℕ) where
  -- A request passes the authentication only with the claims of a valid access token that follows
  -- "Bearer " in its header; otherwise it gets 401. Where it passes, the optional authentication
  -- gives the same claims; where it does not, that one lets it through without claims, and the
  -- check for a user behind it refuses it.
  pub auth_middleware_sound :
      (header : String)
      → ((c : Claims) × (auth_middleware m now header ≡ passes (some c))
          × Brings m now header c
          × (optional_auth_middleware m now header ≡ passes (some c)))
        ⊎ ((message : String) × (auth_middleware m now header ≡ unauthorized message)
            × (optional_auth_middleware m now header ≡ passes none)
            × (require_user none ≡ unauthorized "authentication required"))
  unfolding auth_middleware optional_auth_middleware require_user
  auth_middleware_sound header = elim (Bool-cases (str_eq header "")) [
    | inl empty ↦ inr ("missing authorization header", rw empty refl, rw empty refl, refl)
    | inr given ↦ elim (Option-cases (trim_prefix bearer_prefix header)) [
      | inl other ↦ inr (
        "invalid authorization header format",
        rw (given, other) refl,
        rw (given, other) refl,
        refl,
      )
      | inr (token, left) ↦ elim (Bool-cases (str_eq token "")) [
        | inl empty ↦
            inr ("missing token", rw (given, left, empty) refl, rw (given, left, empty) refl, refl)
        | inr some_token ↦ elim (Result-cases (validate_access_token m now token)) [
          | inr (x, p) ↦ inr (
            "invalid token",
            rw (given, left, some_token, p) refl,
            rw (given, left, some_token, p) refl,
            refl,
          )
          | inl (c, p) ↦ inl (
            c,
            rw (given, left, some_token, p) refl,
            (
              token,
              trim_prefix_ok bearer_prefix header left,
              λ q. absurd (ground (arith, (eq_iff token "").1 q)),
              p,
            ),
            rw (given, left, some_token, p) refl,
          )
        ]
      ]
    ]
  ]
