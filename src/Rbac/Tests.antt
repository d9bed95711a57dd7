-- ===== src/Rbac/Tests.antt =====
-- Ids written in unary: different ids have different texts, and none is empty.
use insider_banking_project.Base.{ℕ, zero, suc, ◌≡◌, ◌≢◌, ◌↔◌, ◌⊎◌, refl, ap, String, some, arith}
use insider_banking_project.Domain.User.{role_user, role_admin}
use insider_banking_project.Domain.Error.{codes}
use insider_banking_project.Base.{length}
use insider_banking_project.Rbac.{Claims, passed, require_ownership_or_admin}
use insider_banking_project.Rbac.Laws.{ownership_or_admin}

abbrev unary : ℕ → String
unary zero = "u"
unary (suc n) = String.◌∷◌ "u" (unary n)

length-unary : (n : ℕ) → length (codes (unary n)) ≡ suc n
length-unary zero = refl
length-unary (suc n) = ground (arith, length-unary n)

unary_distinct : (a b : ℕ) → unary a ≡ unary b → a ≡ b
unary_distinct a b h =
    let same = ap (λ s. length (codes s)) h in ground (arith, same, length-unary a, length-unary b)

unary_filled : (a : ℕ) → unary a ≢ ""
unary_filled a h =
    let same = ap (λ s. length (codes s)) h in absurd (ground (arith, same, length-unary a))

abbrev customer : Claims
customer = record { user_id = 3; role = role_user }

ownership_or_admin_example :
    (require_ownership_or_admin unary (some customer) (unary 4) ≡ passed)
    ↔ ((customer.role ≡ role_admin) ⊎ (customer.user_id ≡ 4))
ownership_or_admin_example = ownership_or_admin unary customer 4 unary_distinct unary_filled
