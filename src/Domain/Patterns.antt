-- ===== src/Domain/Patterns.antt =====
-- The two regular expressions of internal/domain/user.go, as matchers over code points.
use insider_banking_project.Base.{ℕ, Bool, true, false, ◌&&◌, ◌||◌, ◌==◌, List, [], ◌∷◌, leb}

abbrev pub is_letter : ℕ → Bool
is_letter c = (leb b'a' c && leb c b'z') || (leb b'A' c && leb c b'Z')

abbrev pub is_digit : ℕ → Bool
is_digit c = leb b'0' c && leb c b'9'

-- [a-zA-Z0-9_]
abbrev pub is_word : ℕ → Bool
is_word c = is_letter c || (is_digit c || c == b'_')

-- [a-zA-Z0-9._%+-]
abbrev pub is_local : ℕ → Bool
is_local c =
    is_letter c
    || (is_digit c || (c == b'.' || (c == b'_' || (c == b'%' || (c == b'+' || c == b'-')))))

-- [a-zA-Z0-9.-]
abbrev pub is_host : ℕ → Bool
is_host c = is_letter c || (is_digit c || (c == b'.' || c == b'-'))

abbrev pub all_of : (ℕ → Bool) → List ℕ → Bool
all_of p [] = true
all_of p (c ∷ cs) = p c && all_of p cs

-- p+
abbrev pub some_of : (ℕ → Bool) → List ℕ → Bool
some_of p [] = false
some_of p (c ∷ cs) = p c && all_of p cs

-- ^[a-zA-Z0-9_]+$
unfoldable pub matches_username : List ℕ → Bool
matches_username cs = some_of is_word cs

-- [a-zA-Z]{2,}$
abbrev pub matches_top : List ℕ → Bool
matches_top [] = false
matches_top (c ∷ cs) = is_letter c && some_of is_letter cs

-- [a-zA-Z0-9.-]*\.[a-zA-Z]{2,}$
abbrev pub matches_rest : List ℕ → Bool
matches_rest [] = false
matches_rest (c ∷ cs) =
    let rest = matches_rest cs in (c == b'.' && matches_top cs) || (is_host c && rest)

-- [a-zA-Z0-9.-]+\.[a-zA-Z]{2,}$
abbrev pub matches_host : List ℕ → Bool
matches_host [] = false
matches_host (c ∷ cs) = is_host c && matches_rest cs

-- [a-zA-Z0-9._%+-]*@[a-zA-Z0-9.-]+\.[a-zA-Z]{2,}$
abbrev pub matches_at : List ℕ → Bool
matches_at [] = false
matches_at (c ∷ cs) =
    let rest = matches_at cs in (c == b'@' && matches_host cs) || (is_local c && rest)

-- ^[a-zA-Z0-9._%+-]+@[a-zA-Z0-9.-]+\.[a-zA-Z]{2,}$
unfoldable pub matches_email : List ℕ → Bool
matches_email [] = false
matches_email (c ∷ cs) = is_local c && matches_at cs
