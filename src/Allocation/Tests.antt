-- ===== src/Allocation/Tests.antt =====
-- The balcony is added to the concert.
use ticketing_system.Prelude.{some, [], ◌∷◌, arith}
use ticketing_system.Errors.{Ensures}
use ticketing_system.Table.{count}
use ticketing_system.Schema.{Database}
use ticketing_system.Allocation.{create_event_sector}
use ticketing_system.Allocation.Capacity.{Allocated, create_event_sector-Allocated}
use ticketing_system.Samples.{concert, start}

-- The sample before the balcony was added.
abbrev floor_only : Database
floor_only = record start {
  event_sectors = record { id = 5; event_id = 1; sector_id = 1; tickets_left = some 3 } ∷ [];
}

create_event_sector-Allocated_example :
    Ensures (Allocated floor_only 2 concert) (create_event_sector floor_only 2 concert)
unfolding count
create_event_sector-Allocated_example =
    create_event_sector-Allocated floor_only 2 concert (λ _ _. ground arith)
