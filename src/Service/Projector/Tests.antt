-- ===== src/Service/Projector/Tests.antt =====
-- Two events replayed on the small bank, and a batch of events appended.
use insider_banking_project.Base.{ℕ, ◌≡◌, ◌⊎◌, refl, some, List, [], ◌∷◌, ◌++◌, String}
use insider_banking_project.Base.Int.{pos, ◌+ℤ◌, ◌-ℤ◌}
use insider_banking_project.Base.Dict.{lookup}
use insider_banking_project.Domain.Error.{Error}
use insider_banking_project.Domain.Balance.{Balance}
use insider_banking_project.Domain.Change.{Added}
use insider_banking_project.Domain.Event.{Event, EventData, amount_credited, amount_debited}
use insider_banking_project.Repository.Numeric.{to_numeric, IsWhole}
use insider_banking_project.Repository.World.{ok, err}
use insider_banking_project.Repository.Journal.{append_events}
use insider_banking_project.Repository.Versions.{AllNumbered, Stamped, append_events_atomic}
use insider_banking_project.Service.Tests.{calm, world}
use insider_banking_project.Service.Projector.{project_balance_events}
use insider_banking_project.Service.Projector.Replay.{net, project_balance_events_adds}

abbrev event : ℕ → String → EventData → Event
event k type payload = record {
  id = k;
  aggregate_type = "balance";
  aggregate_id = 1;
  event_type = type;
  event_data = payload;
  created_at = k;
  version = 1;
}

abbrev events : List Event
events =
    event 50 "AmountCredited" (amount_credited 1 (pos 700) "USD" 0 "bonus")
    ∷ event 51 "AmountDebited" (amount_debited 1 (pos 200) "USD" 0 "fee")
    ∷ []

abbrev row : Balance
row = record { user_id = 1; amount = pos 10000; currency = "USD"; last_updated_at = 0 }

row_there : lookup 1 world.db.balances ≡ some row
unfolding lookup
row_there = refl

net_events : net events ≡ pos 500
unfolding ◌+ℤ◌ ◌-ℤ◌
net_events = refl

row-IsWhole : IsWhole row.amount
unfolding to_numeric
row-IsWhole = refl

net-IsWhole : IsWhole (net events)
unfolding to_numeric ◌+ℤ◌ ◌-ℤ◌
net-IsWhole = refl

project_balance_events_adds_example :
    ((x : Error) × ((project_balance_events calm 1 events world).0 ≡ err x))
    ⊎ Added 1 row
        (net events)
        world.db.balances
        (project_balance_events calm 1 events world).1.db.balances
project_balance_events_adds_example =
    project_balance_events_adds calm 1 events world row refl row_there refl (refl, (refl, tt))
      row-IsWhole net-IsWhole

world-AllNumbered : AllNumbered world.db.events
world-AllNumbered type id = tt

append_events_atomic_example :
    (((x : Error) × ((append_events calm events world).0 ≡ err x))
      × ((append_events calm events world).1.db.events ≡ world.db.events))
    ⊎ (((append_events calm events world).0 ≡ ok tt)
        × ((added : List Event) × Stamped events added
            × ((append_events calm events world).1.db.events ≡ world.db.events ++ added))
        × AllNumbered (append_events calm events world).1.db.events)
append_events_atomic_example = append_events_atomic calm events world world-AllNumbered
