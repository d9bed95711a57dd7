-- ===== src/Domain/Tests.antt =====
-- Emails that are taken and refused.
use insider_banking_project.Base.{◌≡◌, ◌↔◌, refl, true, false}
use insider_banking_project.Domain.Error.{codes}
use insider_banking_project.Domain.Patterns.{matches_email}
use insider_banking_project.Domain.Grammar.{IsEmail, matches_email-IsEmail}

matches_email-IsEmail_example :
    (matches_email (codes "ann.lee@mail.bank.io") ≡ true) ↔ IsEmail (codes "ann.lee@mail.bank.io")
matches_email-IsEmail_example = matches_email-IsEmail (codes "ann.lee@mail.bank.io")

accepted : matches_email (codes "ann.lee@mail.bank.io") ≡ true
unfolding matches_email
accepted = refl

refused : matches_email (codes "ann@bank.i") ≡ false
unfolding matches_email
refused = refl
