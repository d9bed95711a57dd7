-- ===== src/Domain/Grammar.antt =====
-- What the email pattern means, as a grammar.
use insider_banking_project.Base.{
  ℕ, ◌≡◌, refl, ap, ◌∙◌, ◌⊎◌, inl, inr, ◌↔◌, Bool, true, false, ◌&&◌, ◌||◌, ◌==◌, List, [], ◌∷◌,
  ◌++◌, length, ◌≤◌, arith,
}
use insider_banking_project.Domain.Patterns.{
  is_letter, is_local, is_host, all_of, some_of, matches_top, matches_rest, matches_host,
  matches_at, matches_email,
}

-- What has the shape of the pattern, as far as the matcher's own tests say.
record IsParsed (s : List ℕ) : Type 0 where
  local_part : List ℕ
  host : List ℕ
  top : List ℕ
  spelled : s ≡ local_part ++ b'@' ∷ (host ++ b'.' ∷ top)
  local_ok : some_of is_local local_part ≡ true
  host_ok : some_of is_host host ≡ true
  top_ok : matches_top top ≡ true

-- The same from inside the host, and from inside the local part.
record IsRest (s : List ℕ) : Type 0 where
  host : List ℕ
  top : List ℕ
  spelled : s ≡ host ++ b'.' ∷ top
  host_ok : all_of is_host host ≡ true
  top_ok : matches_top top ≡ true

record IsAt (s : List ℕ) : Type 0 where
  local_part : List ℕ
  host : List ℕ
  top : List ℕ
  spelled : s ≡ local_part ++ b'@' ∷ (host ++ b'.' ∷ top)
  local_ok : all_of is_local local_part ≡ true
  host_ok : some_of is_host host ≡ true
  top_ok : matches_top top ≡ true

either : (a b : Bool) → (a || b) ≡ true → (a ≡ true) ⊎ (b ≡ true)
either true b h = inl refl
either false b h = inr h

both : (a b : Bool) → (a && b) ≡ true → (a ≡ true) × (b ≡ true)
both true b h = (refl, h)
both false b h = absurd (ground arith)

matches_rest-IsRest : (s : List ℕ) → matches_rest s ≡ true → IsRest s
matches_rest-IsRest [] h = absurd (ground arith)
matches_rest-IsRest (c ∷ cs) h =
    elim (either (c == b'.' && matches_top cs) (is_host c && matches_rest cs) h) [
      | inl dot ↦
          let (d, t) = both (c == b'.') (matches_top cs) dot in
          record { host = []; top = cs; spelled = ground arith; host_ok = refl; top_ok = t }
      | inr more ↦
          let (k, r) = both (is_host c) (matches_rest cs) more in
          let rest = matches_rest-IsRest cs r in
          record {
            host = c ∷ rest.host;
            top = rest.top;
            spelled = ap (λ z. c ∷ z) rest.spelled;
            host_ok = ground (arith, rest.host_ok);
            top_ok = rest.top_ok;
          }
    ]

rest_of :
    (h t : List ℕ)
    → all_of is_host h ≡ true
    → matches_top t ≡ true
    → matches_rest (h ++ b'.' ∷ t) ≡ true
rest_of [] t a b = ground arith
rest_of (c ∷ cs) t a b = ground (arith, rest_of cs t (both (is_host c) (all_of is_host cs) a).1 b)

host_of :
    (h t : List ℕ)
    → some_of is_host h ≡ true
    → matches_top t ≡ true
    → matches_host (h ++ b'.' ∷ t) ≡ true
host_of [] t a b = absurd (ground arith)
host_of (c ∷ cs) t a b = ground (arith, rest_of cs t (both (is_host c) (all_of is_host cs) a).1 b)

at_of :
    (l h t : List ℕ)
    → all_of is_local l ≡ true
    → some_of is_host h ≡ true
    → matches_top t ≡ true
    → matches_at (l ++ b'@' ∷ (h ++ b'.' ∷ t)) ≡ true
at_of [] h t a b k = ground (arith, host_of h t b k)
at_of (c ∷ cs) h t a b k =
    ground (arith, at_of cs h t (both (is_local c) (all_of is_local cs) a).1 b k)

matches_at-IsAt : (s : List ℕ) → matches_at s ≡ true → IsAt s
matches_at-IsAt [] h = absurd (ground arith)
matches_at-IsAt (c ∷ cs) h =
    elim (either (c == b'@' && matches_host cs) (is_local c && matches_at cs) h) [
      | inl sign ↦
          let (d, t) = both (c == b'@') (matches_host cs) sign in after_sign cs (ground arith) t
      | inr more ↦
          let (k, r) = both (is_local c) (matches_at cs) more in
          let rest = matches_at-IsAt cs r in
          record {
            local_part = c ∷ rest.local_part;
            host = rest.host;
            top = rest.top;
            spelled = ap (λ z. c ∷ z) rest.spelled;
            local_ok = ground (arith, rest.local_ok);
            host_ok = rest.host_ok;
            top_ok = rest.top_ok;
          }
    ]
  where
    after_sign : (s : List ℕ) → c ≡ b'@' → matches_host s ≡ true → IsAt (c ∷ s)
    after_sign [] d t = absurd (ground arith)
    after_sign (x ∷ xs) d t =
        let (k, r) = both (is_host x) (matches_rest xs) t in
        let rest = matches_rest-IsRest xs r in
        record {
          local_part = [];
          host = x ∷ rest.host;
          top = rest.top;
          spelled = ground (arith, rest.spelled);
          local_ok = refl;
          host_ok = ground (arith, rest.host_ok);
          top_ok = rest.top_ok;
        }

matches_email-IsParsed : (s : List ℕ) → matches_email s ≡ true → IsParsed s
unfolding matches_email
matches_email-IsParsed [] h = absurd (ground arith)
matches_email-IsParsed (c ∷ cs) h =
    let (k, r) = both (is_local c) (matches_at cs) h in
    let rest = matches_at-IsAt cs r in
    record {
      local_part = c ∷ rest.local_part;
      host = rest.host;
      top = rest.top;
      spelled = ap (λ z. c ∷ z) rest.spelled;
      local_ok = ground (arith, rest.local_ok);
      host_ok = rest.host_ok;
      top_ok = rest.top_ok;
    }

spell :
    (l h t : List ℕ)
    → some_of is_local l ≡ true
    → some_of is_host h ≡ true
    → matches_top t ≡ true
    → matches_email (l ++ b'@' ∷ (h ++ b'.' ∷ t)) ≡ true
unfolding matches_email
spell [] h t a b k = absurd (ground arith)
spell (c ∷ cs) h t a b k =
    ground (arith, at_of cs h t (both (is_local c) (all_of is_local cs) a).1 b k)

-- The characters of the pattern, by their codes.
abbrev pub IsLetter : ℕ → Type 0
IsLetter c = ((97 ≤ c) × (c ≤ 122)) ⊎ ((65 ≤ c) × (c ≤ 90))

abbrev pub IsDigit : ℕ → Type 0
IsDigit c = (48 ≤ c) × (c ≤ 57)

-- A letter, a digit, a full stop, or one of _ % + -
abbrev pub IsLocal : ℕ → Type 0
IsLocal c = IsLetter c ⊎ (IsDigit c ⊎ ((c ≡ 46) ⊎ ((c ≡ 95) ⊎ ((c ≡ 37) ⊎ ((c ≡ 43) ⊎ (c ≡ 45))))))

-- A letter, a digit, a full stop or a hyphen
abbrev pub IsHost : ℕ → Type 0
IsHost c = IsLetter c ⊎ (IsDigit c ⊎ ((c ≡ 46) ⊎ (c ≡ 45)))

abbrev pub Each : (ℕ → Type 0) → List ℕ → Type 0
Each P [] = Unit {0}
Each P (c ∷ cs) = P c × Each P cs

-- A text made of a local part, an at sign, a host, a dot and a top level of two letters or more.
pub record IsEmail (s : List ℕ) : Type 0 where
  pub local_part : List ℕ
  pub host : List ℕ
  pub top : List ℕ
  pub spelled : s ≡ local_part ++ 64 ∷ (host ++ 46 ∷ top)
  pub local_chars : Each IsLocal local_part
  pub local_size : 1 ≤ length local_part
  pub host_chars : Each IsHost host
  pub host_size : 1 ≤ length host
  pub top_chars : Each IsLetter top
  pub top_size : 2 ≤ length top

IsLetter-iff : (c : ℕ) → (is_letter c ≡ true) ↔ IsLetter c
IsLetter-iff c = (λ h. ground arith, λ h. ground arith)

IsLocal-iff : (c : ℕ) → (is_local c ≡ true) ↔ IsLocal c
IsLocal-iff c = (λ h. ground arith, λ h. ground arith)

IsHost-iff : (c : ℕ) → (is_host c ≡ true) ↔ IsHost c
IsHost-iff c = (λ h. ground arith, λ h. ground arith)

module _ (p : ℕ → Bool) (P : ℕ → Type 0) (iff : (c : ℕ) → (p c ≡ true) ↔ P c) where
  all_of-Each : (cs : List ℕ) → all_of p cs ≡ true → Each P cs
  all_of-Each [] h = tt
  all_of-Each (c ∷ cs) h =
      let (a, b) = both (p c) (all_of p cs) h in ((iff c).0 a, all_of-Each cs b)

  Each-all_of : (cs : List ℕ) → Each P cs → all_of p cs ≡ true
  Each-all_of [] h = refl
  Each-all_of (c ∷ cs) (a, b) = rw ((iff c).1 a) (Each-all_of cs b)

  some_of-Each : (cs : List ℕ) → some_of p cs ≡ true → Each P cs × (1 ≤ length cs)
  some_of-Each [] h = absurd (ground arith)
  some_of-Each (c ∷ cs) h = (all_of-Each (c ∷ cs) h, omega arith)

  Each-some_of : (cs : List ℕ) → Each P cs → 1 ≤ length cs → some_of p cs ≡ true
  Each-some_of [] h k = absurd (omega arith)
  Each-some_of (c ∷ cs) h k = Each-all_of (c ∷ cs) h

top-Each : (t : List ℕ) → matches_top t ≡ true → Each IsLetter t × (2 ≤ length t)
top-Each [] h = absurd (ground arith)
top-Each (c ∷ cs) h =
    let (a, b) = both (is_letter c) (some_of is_letter cs) h in
    let (each, size) = some_of-Each is_letter IsLetter IsLetter-iff cs b in
    (((IsLetter-iff c).0 a, each), omega (arith, size))

Each-top : (t : List ℕ) → Each IsLetter t → 2 ≤ length t → matches_top t ≡ true
Each-top [] h k = absurd (omega arith)
Each-top (c ∷ cs) (a, b) k =
    rw ((IsLetter-iff c).1 a) (Each-some_of is_letter IsLetter IsLetter-iff cs b (omega arith))

-- The matcher of the email pattern accepts exactly the texts made of a local part, an at sign, a
-- host, a dot and a top level of at least two letters, with the characters of the pattern.
pub matches_email-IsEmail : (s : List ℕ) → (matches_email s ≡ true) ↔ IsEmail s
matches_email-IsEmail s = (there, back)
  where
    there : matches_email s ≡ true → IsEmail s
    there h =
        let m = matches_email-IsParsed s h in
        let (local_each, local_size) =
          some_of-Each is_local IsLocal IsLocal-iff m.local_part m.local_ok in
        let (host_each, host_size) = some_of-Each is_host IsHost IsHost-iff m.host m.host_ok in
        let (top_each, top_size) = top-Each m.top m.top_ok in
        record {
          local_part = m.local_part;
          host = m.host;
          top = m.top;
          spelled = m.spelled;
          local_chars = local_each;
          local_size = local_size;
          host_chars = host_each;
          host_size = host_size;
          top_chars = top_each;
          top_size = top_size;
        }

    back : IsEmail s → matches_email s ≡ true
    back m =
        ap matches_email m.spelled
        ∙ spell m.local_part m.host m.top
            (Each-some_of is_local IsLocal IsLocal-iff m.local_part m.local_chars m.local_size)
            (Each-some_of is_host IsHost IsHost-iff m.host m.host_chars m.host_size)
            (Each-top m.top m.top_chars m.top_size)
