-- ===== src/Http/Permission.antt =====
-- On whose account the handlers of transactions act.
use insider_banking_project.Base.{
  ℕ, ◌≡◌, ◌⊎◌, inl, inr, Bool-cases, String, str_eq, eq_iff, Option, none, some, Option-cases, ltb,
  length, arith, List, if◌then◌else◌,
}
use insider_banking_project.Base.Dict.{lookup}
use insider_banking_project.Domain.Error.{Error, plain}
use insider_banking_project.Domain.Transaction.{Transaction, TransactionResponse, status_success}
use insider_banking_project.Repository.World.{Env, World, M, Result, ok, err}
use insider_banking_project.Rbac.{is_admin, has_role}
use insider_banking_project.Service.Transaction.Common.{Service}
use insider_banking_project.Service.Transaction.Rollback.{rollback_sync, rollback_by_admin}
use insider_banking_project.Service.Transaction.RollbackLaws.{
  rollback_sync_sender, rollback_by_admin_completed,
}
use insider_banking_project.Auth.Tokens.{Claims, JwtManager}
use insider_banking_project.Http.Authentication.{auth_middleware}
use insider_banking_project.Http.Bearer.{Brings, auth_middleware_sound}
use insider_banking_project.Http.Reply.{
  Handler, as_user, behind, respond_with, Reply, success, failure, split_path, part,
}
use insider_banking_project.Http.Transactions.{
  respond_rollback, with_path, handle_rollback_transaction, caller_is_admin,
}

respond_rollback_ok :
    (r : Result TransactionResponse) {t : TransactionResponse}
    → respond_rollback r ≡ success 201 t
    → r ≡ ok t
respond_rollback_ok (ok a) h = ground arith
respond_rollback_ok (err x) h = absurd (ground arith)

module _ (parse_uuid : String → Option ℕ) {A : Type 0} (k : ℕ → Handler World A) (w : World) where
  -- A success behind the path is one of the handler for the id in its fifth part.
  with_path_success :
      (least : ℕ) (parts : List String) {n : ℕ} {a : A}
      → (with_path parse_uuid least parts k w).0 ≡ success n a
      → (text : String) × (id : ℕ) × (part 4 parts ≡ some text)
        × (parse_uuid text ≡ some id)
        × ((k id w).0 ≡ success n a)
  with_path_success least parts h = elim (Bool-cases (ltb (length parts) least)) [
    | inl short ↦ absurd (ground arith)
    | inr long ↦ elim (Option-cases (part 4 parts)) [
      | inl missing ↦ absurd (ground arith)
      | inr (text, there) ↦ elim (Bool-cases (str_eq text "")) [
        | inl empty ↦ absurd (ground arith)
        | inr given ↦ elim (Option-cases (parse_uuid text)) [
          | inl wrong ↦ absurd (ground arith)
          | inr (id, parsed) ↦ (text, id, there, parsed, ground arith)
        ]
      ]
    ]
  ]

module _ (m : JwtManager) (parse_uuid : String → Option ℕ) (now : ℕ)
    (round_trip : (u : ℕ) → parse_uuid (m.uuid_string u) ≡ some u) where
  -- A success behind the authentication is one of the handler for a valid token's claims.
  as_user_success :
      {A : Type 0} (header : String) (k : Option Claims → ℕ → Handler World A) (w : World) {n : ℕ}
      {a : A}
      → (behind
          (auth_middleware m now header)
          (λ claims. as_user m parse_uuid claims (k claims))
          w).0
        ≡ success n a
      → (c : Claims) × Brings m now header c × ((k (some c) c.user_id w).0 ≡ success n a)
  as_user_success header k w h = elim (auth_middleware_sound m now header) [
    | inr (message, refused, _, _) ↦ absurd (ground arith)
    | inl (c, passed, token, _) ↦ let parsed = round_trip c.user_id in (c, token, ground arith)
  ]

module _ (e : Env) (s : Service) (m : JwtManager) (parse_uuid : String → Option ℕ) (now : ℕ)
    (round_trip : (u : ℕ) → parse_uuid (m.uuid_string u) ≡ some u) where
  rollback_right :
      (c : Claims) (id : ℕ) (w : World) {r : TransactionResponse}
      → ((if caller_is_admin (some c)
            then rollback_by_admin e s id
            else rollback_sync e s id c.user_id)
          w).0
        ≡ ok r
      → (t : Transaction) × (lookup id w.db.transactions ≡ some t)
        × (t.status ≡ status_success)
        × ((c.role ≡ "admin") ⊎ (t.from_user_id ≡ some c.user_id))
  unfolding is_admin has_role
  rollback_right c id w {r} h = elim (Bool-cases (str_eq c.role "admin")) [
    | inl admin ↦
        let (t, row, good) = rollback_by_admin_completed e s id w {r = r} (ground arith) in
        (t, row, good, inl ((eq_iff c.role "admin").0 admin))
    | inr user ↦
        let (t, row, good, sender) =
          rollback_sync_sender e s id c.user_id w {r = r} (ground arith) in
        (t, row, good, inr sender)
  ]

  -- Where parsing undoes the printing of an id, a rollback that is answered with 201 was asked for
  -- with a valid access token, for a stored transaction that had been completed and whose id is the
  -- fifth part of the path, by an administrator or by the transaction's sender.
  pub handle_rollback_needs_right :
      (header path : String) (w : World) {r : TransactionResponse}
      → (handle_rollback_transaction e s m parse_uuid now header path w).0 ≡ success 201 r
      → (c : Claims) × (id : ℕ) × (t : Transaction) × Brings m now header c
        × ((text : String) × (part 4 (split_path path) ≡ some text) × (parse_uuid text ≡ some id))
        × (lookup id w.db.transactions ≡ some t)
        × (t.status ≡ status_success)
        × ((c.role ≡ "admin") ⊎ (t.from_user_id ≡ some c.user_id))
  unfolding handle_rollback_transaction
  handle_rollback_needs_right header path w {r} h =
      let (c, token, h1) =
        as_user_success m parse_uuid now round_trip header
          (λ claims user_id. with_path parse_uuid 6 (split_path path) λ id.
            respond_with respond_rollback (
              if caller_is_admin claims
              then rollback_by_admin e s id
              else rollback_sync e s id user_id))
          w h in
      let (text, id, there, parsed, h2) =
        with_path_success parse_uuid
          (λ id. respond_with respond_rollback (
            if caller_is_admin (some c)
            then rollback_by_admin e s id
            else rollback_sync e s id c.user_id))
          w 6 (split_path path) h1 in
      let (t, row, good, right) = rollback_right c id w (respond_rollback_ok _ h2) in
      (c, id, t, token, (text, there, parsed), row, good, right)

-- What the handlers that take a body do: the service acts for the user of a valid token, on what the
-- body holds; or the request is refused, and the world is as it was.
pub data Acts (m : JwtManager) (now : ℕ) {R : Type 0} (service : ℕ → R → M TransactionResponse)
    (header : String) (body : Option R) (w : World) (out : Reply TransactionResponse × World)
    : Type 0 where
  created :
      (c : Claims) (r : R) (t : TransactionResponse)
      → Brings m now header c
      → body ≡ some r
      → (service c.user_id r w).0 ≡ ok t
      → out ≡ (success 201 t, (service c.user_id r w).1)
      → Acts m now service header body w out
  not_done :
      (c : Claims) (r : R) (x : Error)
      → Brings m now header c
      → body ≡ some r
      → (service c.user_id r w).0 ≡ err x
      → out ≡ (failure 400 x, (service c.user_id r w).1)
      → Acts m now service header body w out
  unread :
      (c : Claims)
      → Brings m now header c
      → body ≡ none
      → out ≡ (failure 400 (plain "Invalid JSON request body"), w)
      → Acts m now service header body w out
  no_token : (x : Error) → out ≡ (failure 401 x, w) → Acts m now service header body w out
