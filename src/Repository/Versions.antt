-- ===== src/Repository/Versions.antt =====
-- The events of an aggregate are numbered from one, in the order of the table.
use insider_banking_project.Base.{
  ℕ, ⊤, ◌+◌, ◌≡◌, refl, sym, ap, ◌∙◌, ◌⊎◌, inl, inr, Bool, Bool-cases, true, String, str_eq, eq_iff,
  Option-cases, List, [], ◌∷◌, ◌++◌, ◌&&◌, ◌==◌, if◌then◌else◌, arith,
}
use mathlib.Core.Path.{subst}
use insider_banking_project.Domain.Error.{Error, plain, wrap}
use insider_banking_project.Domain.Event.{Event}
use insider_banking_project.Repository.World.{Env, World, Result-cases, ok, err}
use insider_banking_project.Repository.Journal.{
  max_version, event_row_ok, append_event, append_events, append_each,
}

abbrev pub of_aggregate : String → ℕ → Event → Bool
of_aggregate type id v = str_eq v.aggregate_type type && v.aggregate_id == id

module _ (type : String) (id : ℕ) where
  -- The aggregate's events are numbered n + 1, n + 2 and so on.
  abbrev pub Numbered : ℕ → List Event → Type 0
  Numbered n [] = ⊤
  Numbered n (v ∷ vs) =
      if of_aggregate type id v then (v.version ≡ n + 1) × Numbered (n + 1) vs else Numbered n vs

  abbrev count_events : List Event → ℕ
  count_events [] = 0
  count_events (v ∷ vs) =
      let rest = count_events vs in if of_aggregate type id v then rest + 1 else rest

  -- The greatest version is the last one.
  IsLast : ℕ → List Event → Type 0
  IsLast n vs =
      ((count_events vs ≡ 0) × (max_version type id vs ≡ 0))
      ⊎ (max_version type id vs ≡ n + count_events vs)

  max_version-IsLast : (n : ℕ) (vs : List Event) → Numbered n vs → IsLast n vs
  unfolding IsLast max_version
  max_version-IsLast n [] h = inl (refl, refl)
  max_version-IsLast n (v ∷ vs) h = elim (Bool-cases (of_aggregate type id v)) [
    | inl mine ↦
        let (first, rest) =
          subst (λ z. if z then (v.version ≡ n + 1) × Numbered (n + 1) vs else Numbered n vs) mine
            h in
        inr (ground (arith, max_version-IsLast (n + 1) vs rest))
    | inr other ↦
        let rest : Numbered n vs =
          subst (λ z. if z then (v.version ≡ n + 1) × Numbered (n + 1) vs else Numbered n vs) other
            h in
        elim (max_version-IsLast n vs rest) [
          | inl (none_here, least) ↦ inl (ground arith, ground arith)
          | inr last ↦ inr (ground arith)
        ]
  ]

  snoc-Numbered :
      (n : ℕ) (vs : List Event) (v : Event)
      → Numbered n vs
      → (of_aggregate type id v ≡ true → v.version ≡ n + count_events vs + 1)
      → Numbered n (vs ++ v ∷ [])
  snoc-Numbered n [] v h next = elim (Bool-cases (of_aggregate type id v)) [
    | inl mine ↦ rw mine (omega (arith, next mine), tt)
    | inr other ↦ rw other tt
  ]
  snoc-Numbered n (x ∷ xs) v h next = elim (Bool-cases (of_aggregate type id x)) [
    | inl mine ↦
        let (first, rest) =
          subst (λ z. if z then (x.version ≡ n + 1) × Numbered (n + 1) xs else Numbered n xs) mine
            h in
        rw mine (first, snoc-Numbered (n + 1) xs v rest (λ k. ground (arith, next k)))
    | inr other ↦
        let rest : Numbered n xs =
          subst (λ z. if z then (x.version ≡ n + 1) × Numbered (n + 1) xs else Numbered n xs) other
            h in
        rw other (snoc-Numbered n xs v rest (λ k. ground (arith, next k)))
  ]

append_nil : (vs : List Event) → vs ++ [] ≡ vs
append_nil [] = refl
append_nil (v ∷ vs) = ap (λ z. v ∷ z) (append_nil vs)

append_assoc : (us vs ws : List Event) → (us ++ vs) ++ ws ≡ us ++ (vs ++ ws)
append_assoc [] vs ws = refl
append_assoc (u ∷ us) vs ws = ap (λ z. u ∷ z) (append_assoc us vs ws)

-- Every aggregate's events are numbered from one.
abbrev pub AllNumbered : List Event → Type 0
AllNumbered vs = (type : String) (id : ℕ) → Numbered type id 0 vs

of_aggregate_same :
    (type : String) (id : ℕ) (v : Event)
    → of_aggregate type id v ≡ true
    → (v.aggregate_type ≡ type) × (v.aggregate_id ≡ id)
of_aggregate_same type id v h = (ground (arith, (eq_iff v.aggregate_type type).0), ground arith)

-- The next event of an aggregate keeps the numbering.
snoc-AllNumbered :
    (vs : List Event) (v : Event)
    → AllNumbered vs
    → v.version ≡ max_version v.aggregate_type v.aggregate_id vs + 1
    → AllNumbered (vs ++ v ∷ [])
unfolding IsLast
snoc-AllNumbered vs v h next type id = snoc-Numbered type id 0 vs v (h type id) (λ k.
    let (p, q) = of_aggregate_same type id v k in
    let same : max_version v.aggregate_type v.aggregate_id vs ≡ max_version type id vs =
      ap (λ z. max_version z v.aggregate_id vs) p ∙ ap (λ z. max_version type z vs) q in
    ground (arith, max_version-IsLast type id 0 vs (h type id)))

-- The events that were written for a batch: each keeps its id, its aggregate, its type and its data,
-- and gets a version and a time.
abbrev pub Stamped : List Event → List Event → Type 0
Stamped [] [] = Unit {0}
Stamped [] (x ∷ xs) = ⊥
Stamped (v ∷ vs) [] = ⊥
Stamped (v ∷ vs) (x ∷ xs) =
    (x.id ≡ v.id)
    × (x.aggregate_type ≡ v.aggregate_type)
    × (x.aggregate_id ≡ v.aggregate_id)
    × (x.event_type ≡ v.event_type)
    × (x.event_data ≡ v.event_data)
    × Stamped vs xs

module _ (e : Env) where
  append_event_events :
      (v : Event) (w : World)
      → ((append_event e v w).1.db.events ≡ w.db.events)
        ⊎ ((v' : Event) × (v'.version
              ≡ max_version v'.aggregate_type v'.aggregate_id w.db.events + 1)
            × ((append_event e v w).1.db.events ≡ w.db.events ++ v' ∷ []))
  unfolding append_event
  append_event_events v w = elim (Option-cases (e.fault w.tick)) [
    | inr (s, p) ↦ inl (ground arith)
    | inl p ↦ elim (Option-cases (e.fault (w.tick + 1 + 1))) [
      | inr (s, q) ↦ inl (ground arith)
      | inl q ↦
          let v' : Event = record v {
            version = max_version v.aggregate_type v.aggregate_id w.db.events + 1;
            created_at = e.now (w.tick + 1);
          } in
          elim (Bool-cases (event_row_ok w.db.events v')) [
            | inl good ↦ inr (v', refl, ground arith)
            | inr bad ↦ inl (ground arith)
          ]
    ]
  ]

  -- Appending one event keeps every aggregate's events numbered from one, whatever call fails.
  append_event-AllNumbered :
      (v : Event) (w : World)
      → AllNumbered w.db.events
      → AllNumbered (append_event e v w).1.db.events
  append_event-AllNumbered v w h = elim (append_event_events v w) [
    | inl same ↦ subst AllNumbered (sym same) h
    | inr (v', next, added) ↦ subst AllNumbered (sym added) (snoc-AllNumbered w.db.events v' h next)
  ]

  -- What the loop of a batch writes: one event for each, after what it saw.
  append_each_ok :
      (vs seen : List Event) (w : World) {written : List Event}
      → AllNumbered seen
      → (append_each e vs seen w).0 ≡ ok written
      → (added : List Event) × (written ≡ seen ++ added) × Stamped vs added × AllNumbered written
  append_each_ok [] seen w h q =
      ([], ground (arith, append_nil seen), tt, subst AllNumbered (ground arith) h)
  append_each_ok (v ∷ vs) seen w h q = elim (Option-cases (e.fault w.tick)) [
    | inr (s, p) ↦ absurd (ground arith)
    | inl p ↦ elim (Option-cases (e.fault (w.tick + 1 + 1))) [
      | inr (s, r) ↦ absurd (ground arith)
      | inl r ↦
          let v' : Event = record v {
            version = max_version v.aggregate_type v.aggregate_id seen + 1;
            created_at = e.now (w.tick + 1);
          } in
          let (added, spelled, same, numbered) =
            append_each_ok vs (seen ++ v' ∷ []) (record w { tick = w.tick + 1 + 1 + 1 })
              (snoc-AllNumbered seen v' h refl) (ground arith) in
          (
            v' ∷ added,
            spelled ∙ append_assoc seen (v' ∷ []) added,
            (refl, refl, refl, refl, refl, same),
            numbered,
          )
    ]
  ]

  append_each_db : (vs seen : List Event) (w : World) → (append_each e vs seen w).1.db ≡ w.db
  append_each_db [] seen w = refl
  append_each_db (v ∷ vs) seen w = elim (Option-cases (e.fault w.tick)) [
    | inr (s, p) ↦ ground arith
    | inl p ↦ elim (Option-cases (e.fault (w.tick + 1 + 1))) [
      | inr (s, r) ↦ ground arith
      | inl r ↦ ground (
        arith,
        append_each_db vs
            (seen
              ++ (record v {
                version = max_version v.aggregate_type v.aggregate_id seen + 1;
                created_at = e.now (w.tick + 1);
              })
                ∷ [])
            (record w { tick = w.tick + 1 + 1 + 1 }),
      )
    ]
  ]

  -- A batch of events is appended whole or not at all. If the events of every aggregate are
  -- numbered from one, then an error leaves the table as it was, and a success has added the events
  -- of the batch, in their order and with their ids, aggregates, types and data, at the end of the
  -- table, in which all are still numbered from one.
  pub append_events_atomic :
      (vs : List Event) (w : World)
      → AllNumbered w.db.events
      → (((x : Error) × ((append_events e vs w).0 ≡ err x))
          × ((append_events e vs w).1.db.events ≡ w.db.events))
        ⊎ (((append_events e vs w).0 ≡ ok tt)
            × ((added : List Event) × Stamped vs added
                × ((append_events e vs w).1.db.events ≡ w.db.events ++ added))
            × AllNumbered (append_events e vs w).1.db.events)
  unfolding append_events
  append_events_atomic [] w h = inr (refl, ([], tt, sym (append_nil w.db.events)), h)
  append_events_atomic (v ∷ vs) w h = elim (Option-cases (e.fault w.tick)) [
    | inr (s, p) ↦ inl ((wrap "failed to begin transaction" (plain s), ground arith), ground arith)
    | inl p ↦
        let w₁ : World = record w { tick = w.tick + 1 } in
        let same = append_each_db (v ∷ vs) w.db.events w₁ in
        elim (Result-cases (append_each e (v ∷ vs) w.db.events w₁).0) [
          | inr (x, q) ↦ inl ((x, ground arith), ground (arith, same))
          | inl (written, q) ↦
              elim (Option-cases (e.fault (append_each e (v ∷ vs) w.db.events w₁).1.tick)) [
                | inr (s, r) ↦ inl (
                  (wrap "failed to commit transaction" (plain s), ground arith),
                  ground (arith, same),
                )
                | inl r ↦
                    let (added, spelled, size, numbered) =
                      append_each_ok (v ∷ vs) w.db.events w₁ h q in
                    let now_there : (append_events e (v ∷ vs) w).1.db.events ≡ written =
                      ground arith in
                    inr (
                      ground arith,
                      (added, size, now_there ∙ spelled),
                      subst AllNumbered (sym now_there) numbered,
                    )
              ]
        ]
  ]
