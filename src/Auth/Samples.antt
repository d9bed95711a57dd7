-- ===== src/Auth/Samples.antt =====
-- A token library and a password hash that keep to their contracts: a token spells out its claims,
-- and a hash is the password behind a letter.
use insider_banking_project.Base.{
  ℕ, inl, inr, zero, suc, ◌≤◌, ◌<◌, ◌≡◌, refl, sym, ap, ◌∙◌, true, ◌&&◌, ◌==◌, String, str_eq,
  eq_iff, none, some, List, [], ◌∷◌, length, ltb, leb, if◌then◌else◌, arith,
}
use Prim.Native.Char.{code}
use insider_banking_project.Domain.Error.{Error, plain, codes}
use insider_banking_project.Repository.World.{Result, Result-cases, ok, err}
use insider_banking_project.Auth.Password.{Bcrypt, IsBcrypt}
use insider_banking_project.Auth.Tokens.{Method, hmac, Claims, Token, Jwt, IsJwt, JwtManager}

-- Numbers, texts and lists, each spelled before a rest, and read back with the rest.
put_number : ℕ → String → String
put_number zero s = String.◌∷◌ "." s
put_number (suc n) s = String.◌∷◌ "1" (put_number n s)

get_number : String → ℕ × String
get_number String.[] = (0, String.[])
get_number (String.◌∷◌ c s) =
    if code c == b'1' then (suc (get_number s).0, (get_number s).1) else (0, s)

get_put_number : (n : ℕ) (s : String) → get_number (put_number n s) ≡ (n, s)
unfolding get_number put_number
get_put_number zero s = refl
get_put_number (suc n) s = ap (λ z. (suc z.0, z.1)) (get_put_number n s)

put_text : String → String → String
put_text String.[] s = String.◌∷◌ "." s
put_text (String.◌∷◌ c t) s = String.◌∷◌ "1" (String.◌∷◌ c (put_text t s))

get_text : String → String × String
get_text String.[] = (String.[], String.[])
get_text (String.◌∷◌ m String.[]) = (String.[], String.[])
get_text (String.◌∷◌ m (String.◌∷◌ c s)) =
    if code m == b'1'
    then (String.◌∷◌ c (get_text s).0, (get_text s).1)
    else (String.[], String.◌∷◌ c s)

get_put_text : (t s : String) → get_text (put_text t s) ≡ (t, s)
unfolding get_text put_text
get_put_text String.[] String.[] = refl
get_put_text String.[] (String.◌∷◌ c s) = refl
get_put_text (String.◌∷◌ c t) s = ap (λ z. (String.◌∷◌ c z.0, z.1)) (get_put_text t s)

put_all : List String → String → String
put_all [] s = s
put_all (t ∷ ts) s = put_text t (put_all ts s)

get_all : ℕ → String → List String × String
get_all zero s = ([], s)
get_all (suc n) s = let (t, s') = get_text s in let (ts, s'') = get_all n s' in (t ∷ ts, s'')

get_put_all : (ts : List String) (s : String) → get_all (length ts) (put_all ts s) ≡ (ts, s)
unfolding get_all put_all
get_put_all [] s = refl
get_put_all (t ∷ ts) s =
    ap (λ z. (z.0 ∷ (get_all (length ts) z.1).0, (get_all (length ts) z.1).1))
      (get_put_text t (put_all ts s))
    ∙ ap (λ z. (t ∷ z.0, z.1)) (get_put_all ts s)

-- A way to spell values that can be read back.
record Codec (A : Type 0) : Type 0 where
  put : A → String → String
  get : String → A × String
  back : (a : A) (s : String) → get (put a s) ≡ (a, s)

numbers : Codec ℕ
numbers = record { put = put_number; get = get_number; back = get_put_number }

texts : Codec String
texts = record { put = put_text; get = get_text; back = get_put_text }

lists : Codec (List String)
lists = record {
  put = λ ts s. put_number (length ts) (put_all ts s);
  get = λ s. let (n, s') = get_number s in get_all n s';
  back = λ ts s.
      ap (λ z. get_all z.0 z.1) (get_put_number (length ts) (put_all ts s)) ∙ get_put_all ts s;
}

infixr 6 ◌and◌
◌and◌ : {A B : Type 0} → Codec A → Codec B → Codec (A × B)
p and q = record {
  put = λ z s. p.put z.0 (q.put z.1 s);
  get = λ s. let (a, s') = p.get s in let (b, s'') = q.get s' in ((a, b), s'');
  back = λ z s.
      ap (λ y. ((y.0, (q.get y.1).0), (q.get y.1).1)) (p.back z.0 (q.put z.1 s))
      ∙ ap (λ y. ((z.0, y.0), y.1)) (q.back z.1 s);
}

abbrev Fields : Type 0
Fields = ℕ × String × String × String × String × String × String × String × List String × ℕ × ℕ × ℕ

abbrev Nested : Type 0
Nested =
    (ℕ
      × (String
          × (String
              × (String
                  × (String × (String × (String × (String × (List String × (ℕ × (ℕ × ℕ)))))))))))

nested : Codec Nested
nested =
    numbers and texts and texts and texts and texts and texts and texts and texts and lists
    and numbers and numbers and numbers

abbrev spread : Claims → Nested
spread c = (
  c.user_id,
  (
    c.username,
    (
      c.email,
      (
        c.role,
        (
          c.type,
          (
            c.id,
            (c.issuer, (c.subject, (c.audience, (c.expires_at, (c.not_before, c.issued_at))))),
          ),
        ),
      ),
    ),
  ),
)

abbrev collect : Nested → Claims
collect
      (
        u,
        (name, (email, (role, (type, (id, (issuer, (subject, (audience, (until, (from, at)))))))))),
      ) =
    record {
      user_id = u;
      username = name;
      email = email;
      role = role;
      type = type;
      id = id;
      issuer = issuer;
      subject = subject;
      audience = audience;
      expires_at = until;
      not_before = from;
      issued_at = at;
    }

pub spell_claims : Claims → String
spell_claims c = nested.put (spread c) ""

pub read_claims : String → Claims
read_claims s = collect (nested.get s).0

read-spell_claims : (c : Claims) → read_claims (spell_claims c) ≡ c
unfolding read_claims spell_claims
read-spell_claims c = ap (λ z. collect z.0) (nested.back (spread c) "")

-- A token is parsed if its time has come and not passed.
abbrev judge : ℕ → Claims → Result Token
judge now c =
    if leb c.not_before now && ltb now c.expires_at
    then ok (record { claims = c; valid = true })
    else err (plain "token is expired")

abbrev parse_with : Result String → ℕ → Claims → Result Token
parse_with (ok key) now c = judge now c
parse_with (err x) now c = err x

abbrev pub jwt : Jwt
jwt = record {
  signed_string = λ key c. ok (spell_claims c);
  parse_with_claims = λ key_of now token. parse_with (key_of hmac) now (read_claims token);
}

pub jwt-IsJwt : IsJwt jwt
jwt-IsJwt = record {
  parses = λ key_of key token c now has_key signed from until.
      let claims : read_claims token ≡ c =
        ap read_claims (spelled token c signed) ∙ read-spell_claims c in
      rw (has_key, claims) (judged now c from until);
  expires = λ key_of key token c now signed past.
      let claims : read_claims token ≡ c =
        ap read_claims (spelled token c signed) ∙ read-spell_claims c in
      refused key_of token c now claims past;
}
  where
    spelled :
        (token : String) (c : Claims) → ok (spell_claims c) ≡ ok token → token ≡ spell_claims c
    spelled token c h = ground arith

    judged :
        (now : ℕ) (c : Claims)
        → c.not_before ≤ now
        → now < c.expires_at
        → judge now c ≡ ok (record { claims = c; valid = true })
    judged now c from until = ground arith

    late :
        (now : ℕ) (c : Claims) → c.expires_at ≤ now → judge now c ≡ err (plain "token is expired")
    late now c past = ground arith

    refused :
        (key_of : Method → Result String) (token : String) (c : Claims) (now : ℕ)
        → read_claims token ≡ c
        → c.expires_at ≤ now
        → (x : Error) × (parse_with (key_of hmac) now (read_claims token) ≡ err x)
    refused key_of token c now claims past = elim (Result-cases (key_of hmac)) [
      | inl (key, p) ↦ (plain "token is expired", rw (p, claims) (late now c past))
      | inr (x, p) ↦ (x, rw p refl)
    ]

abbrev hash_of : String → String
hash_of password = String.◌∷◌ "h" password

abbrev pub bcrypt : Bcrypt
bcrypt = record {
  generate_from_password = λ salt password cost. ok (hash_of password);
  compare_hash_and_password = λ hash password.
      if str_eq hash (hash_of password) then none else some (plain "mismatched hash and password");
}

pub bcrypt-IsBcrypt : IsBcrypt bcrypt
bcrypt-IsBcrypt = record {
  compares = λ salt cost password hash h.
      let same : hash ≡ hash_of password = ground arith in
      rw ((eq_iff hash (hash_of password)).1 same) refl;
  not_empty = λ salt cost password hash h empty.
      let same : hash ≡ hash_of password = ground arith in
      let sizes = ap (λ z. length (codes z)) (sym same ∙ empty) in absurd (ground arith);
}

abbrev pub unary : ℕ → String
unary zero = "u"
unary (suc n) = String.◌∷◌ "u" (unary n)

abbrev pub manager : JwtManager
manager = record { jwt = jwt; uuid_string = unary; secret_key = "secret"; issuer = "bank" }
