-- ===== src/Rbac/Laws.antt =====
-- Exactly who passes each guard.
use insider_banking_project.Base.{
  ℕ, ◌≡◌, ◌≢◌, ◌↔◌, ◌⊎◌, inl, inr, ap, true, false, Bool-cases, String, str_eq, eq_iff, Option,
  none, some, arith,
}
use insider_banking_project.Domain.User.{role_admin}
use insider_banking_project.Rbac.{
  Claims, passed, require_role, require_admin, require_user_role, has_role, is_admin,
  is_user_or_admin, require_ownership_or_admin,
}

-- The guards and the tests of the roles agree: an administrator's route is passed exactly by
-- requests for which `IsAdmin` holds, a user's route exactly by those for which `IsUser` holds, and
-- whoever passes the first passes the second.
pub guards_agree :
    (claims : Option Claims)
    → ((require_admin claims ≡ passed) ↔ (is_admin claims ≡ true))
      × ((require_user_role claims ≡ passed) ↔ (is_user_or_admin claims ≡ true))
      × (require_admin claims ≡ passed → require_user_role claims ≡ passed)
unfolding require_admin require_role require_user_role is_admin has_role is_user_or_admin
guards_agree none = (
  (λ h. absurd (ground arith), λ h. absurd (ground arith)),
  (λ h. absurd (ground arith), λ h. absurd (ground arith)),
  λ h. absurd (ground arith),
)
guards_agree (some c) = (
  (λ h. ground arith, λ h. ground arith),
  (λ h. ground arith, λ h. ground arith),
  λ h. ground arith,
)

-- If different ids have different texts and no id has the empty text, the resource of user v is
-- reached exactly by an administrator and by v.
pub ownership_or_admin :
    (uuid_string : ℕ → String) (c : Claims) (v : ℕ)
    → ((a b : ℕ) → uuid_string a ≡ uuid_string b → a ≡ b)
    → ((a : ℕ) → uuid_string a ≢ "")
    → (require_ownership_or_admin uuid_string (some c) (uuid_string v) ≡ passed)
      ↔ ((c.role ≡ role_admin) ⊎ (c.user_id ≡ v))
unfolding require_ownership_or_admin
ownership_or_admin uuid_string c v distinct filled = elim (Bool-cases (str_eq c.role role_admin)) [
  | inl admin ↦ (λ h. inl ((eq_iff c.role role_admin).0 admin), λ h. ground arith)
  | inr other ↦
      let nonempty : str_eq (uuid_string v) "" ≡ false =
        elim (Bool-cases (str_eq (uuid_string v) "")) [
          | inl empty ↦ absurd (filled v ((eq_iff (uuid_string v) "").0 empty))
          | inr full ↦ full
        ] in
      elim (Bool-cases (str_eq (uuid_string c.user_id) (uuid_string v))) [
        | inl same ↦ (
          λ h. inr (distinct c.user_id v ((eq_iff (uuid_string c.user_id) (uuid_string v)).0 same)),
          λ h. ground arith,
        )
        | inr differs ↦ (
          λ h. absurd (ground arith),
          λ h. elim h [
            | inl admin ↦ absurd (ground (arith, (eq_iff c.role role_admin).1 admin))
            | inr own ↦ absurd (
                ground
                  (arith, (eq_iff (uuid_string c.user_id) (uuid_string v)).1 (ap uuid_string own)))
          ],
        )
      ]
]
