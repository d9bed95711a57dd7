-- ===== src/Service/Projector/Replay.antt =====
-- What replaying events does to the balances, and whom it lets in.
use insider_banking_project.Base.{
  ℕ, ⊤, ◌≡◌, refl, sym, ap, ◌∙◌, ◌⊎◌, inl, inr, Bool-cases, false, String, str_eq, eq_iff, none,
  some, List, [], ◌∷◌, if◌then◌else◌, arith,
}
use mathlib.Core.Path.{subst}
use insider_banking_project.Base.Int.{ℤ, pos, ◌+ℤ◌, ◌-ℤ◌, int_laws}
use insider_banking_project.Base.Dict.{lookup, insert}
use insider_banking_project.Domain.Error.{Error}
use insider_banking_project.Domain.Balance.{Balance}
use insider_banking_project.Domain.Change.{Added, written-Added}
use insider_banking_project.Domain.Event.{Event}
use insider_banking_project.Domain.Payload.{payload_amount}
use insider_banking_project.Repository.Numeric.{to_numeric, IsWhole, to_numeric-plus}
use insider_banking_project.Repository.World.{Env, World, Result-cases, err}
use insider_banking_project.Repository.Balances.{get_by_user_id, upsert}
use insider_banking_project.Repository.Frames.{upsert_ok}
use insider_banking_project.Repository.Quiet.{get_by_user_id-Quiet}
use insider_banking_project.Service.Projector.{
  apply_balance_event, apply_balance_events, project_balance_events,
}

-- The sums of what the events of a kind carry.
abbrev pub sum_of : String → List Event → ℤ
sum_of type [] = pos 0
sum_of type (v ∷ vs) =
    let rest = sum_of type vs in
    if str_eq v.event_type type then payload_amount v.event_data +ℤ rest else rest

-- What the events say has come in, less what has gone out.
abbrev pub net : List Event → ℤ
net vs = sum_of "AmountCredited" vs -ℤ sum_of "AmountDebited" vs

abbrev pub NoneInitialized : List Event → Type 0
NoneInitialized [] = ⊤
NoneInitialized (v ∷ vs) = (str_eq v.event_type "BalanceInitialized" ≡ false) × NoneInitialized vs

credit_first : (a p c d : ℤ) → (a +ℤ p) +ℤ (c -ℤ d) ≡ a +ℤ ((p +ℤ c) -ℤ d)
credit_first a p c d = omega int_laws

debit_first : (a p c d : ℤ) → (a -ℤ p) +ℤ (c -ℤ d) ≡ a +ℤ (c -ℤ (p +ℤ d))
debit_first a p c d = omega int_laws

nothing : (a : ℤ) → a ≡ a +ℤ (pos 0 -ℤ pos 0)
nothing a = omega int_laws

-- One event, and what it adds to the net.
step_net :
    (v : Event) (vs : List Event) (b : Balance)
    → str_eq v.event_type "BalanceInitialized" ≡ false
    → (apply_balance_event v b).amount +ℤ net vs ≡ b.amount +ℤ net (v ∷ vs)
step_net v vs b h =
    let c = sum_of "AmountCredited" vs in
    let d = sum_of "AmountDebited" vs in
    let p = payload_amount v.event_data in
    elim (Bool-cases (str_eq v.event_type "AmountCredited")) [
      | inl credit ↦
          let other : str_eq v.event_type "AmountDebited" ≡ false =
            ap (λ z. str_eq z "AmountDebited") ((eq_iff v.event_type "AmountCredited").0 credit) in
          rw (h, credit, other) (credit_first b.amount p c d)
      | inr other ↦ elim (Bool-cases (str_eq v.event_type "AmountDebited")) [
        | inl debit ↦ rw (h, other, debit) (debit_first b.amount p c d)
        | inr neither ↦ rw (h, other, neither) refl
      ]
    ]

apply_balance_events-net :
    (vs : List Event) (b : Balance)
    → NoneInitialized vs
    → (apply_balance_events vs b).amount ≡ b.amount +ℤ net vs
unfolding apply_balance_events
apply_balance_events-net [] b h = nothing b.amount
apply_balance_events-net (v ∷ vs) b (h, hs) =
    apply_balance_events-net vs (apply_balance_event v b) hs ∙ step_net v vs b h

apply_balance_event_user : (v : Event) (b : Balance) → (apply_balance_event v b).user_id ≡ b.user_id
apply_balance_event_user v b = ground arith

apply_balance_events_user :
    (vs : List Event) (b : Balance) → (apply_balance_events vs b).user_id ≡ b.user_id
unfolding apply_balance_events
apply_balance_events_user [] b = refl
apply_balance_events_user (v ∷ vs) b =
    apply_balance_events_user vs (apply_balance_event v b) ∙ apply_balance_event_user v b

module _ (e : Env) where
  project_balance_events-reaches :
      (u : ℕ) (vs : List Event) (w : World) (b : Balance)
      → e.fault w.tick ≡ none
      → lookup u w.db.balances ≡ some b
      → project_balance_events e u vs w
        ≡ upsert e (apply_balance_events vs b) (get_by_user_id e u w).1
  unfolding project_balance_events get_by_user_id
  project_balance_events-reaches u vs w b works row = ground arith

  -- Replaying credits and debits for a user who has a balance, where its reading does not fail and
  -- no event sets a first amount, either fails or adds the events' credits, less their debits, to
  -- that balance, on top of what it already held, and changes no other user's balance. The balance and the
  -- events' net are taken to be in whole cents.
  pub project_balance_events_adds :
      (u : ℕ) (vs : List Event) (w : World) (b : Balance)
      → e.fault w.tick ≡ none
      → lookup u w.db.balances ≡ some b
      → b.user_id ≡ u
      → NoneInitialized vs
      → IsWhole b.amount
      → IsWhole (net vs)
      → ((x : Error) × ((project_balance_events e u vs w).0 ≡ err x))
        ⊎ Added u b (net vs) w.db.balances (project_balance_events e u vs w).1.db.balances
  project_balance_events_adds u vs w b works row mine plain_events whole whole_net =
      let w₁ : World = (get_by_user_id e u w).1 in
      let b' : Balance = apply_balance_events vs b in
      let reaches = project_balance_events-reaches u vs w b works row in
      let quiet = get_by_user_id-Quiet e u w in
      elim (Result-cases (upsert e b' w₁).0) [
        | inr (x, p) ↦ inl (x, ap (λ z. z.0) reaches ∙ p)
        | inl (t, p) ↦
            let written : Balance = record b' {
              amount = to_numeric b'.amount;
              last_updated_at = e.now w₁.tick;
            } in
            let after : (project_balance_events e u vs w).1.db.balances
                ≡ insert u written w.db.balances =
              ap (λ z. z.1.db.balances) reaches
              ∙ ap (λ z. z.balances) (upsert_ok e b' w₁ p).0
              ∙ ap (λ z. insert z written w₁.db.balances) (apply_balance_events_user vs b ∙ mine)
              ∙ ap (λ z. insert u written z) quiet.same_balances in
            inr (
              subst (λ z. Added u b (net vs) w.db.balances z) (sym after)
                (written-Added u b (net vs) written w.db.balances row (
                  ap to_numeric (apply_balance_events-net vs b plain_events)
                  ∙ to_numeric-plus b.amount (net vs) whole whole_net)))
      ]
