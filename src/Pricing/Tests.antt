-- ===== src/Pricing/Tests.antt =====
-- An administrator reprices the floor, adds an offer and tries to delete one that is sold.
use ticketing_system.Prelude.{refl, List, [], ◌∷◌, none, some, arith, true}
use ticketing_system.Table.{exists}
use ticketing_system.Schema.{Database, User, Role, OrderStatus}
use ticketing_system.Pricing.{
  PriceRequest, offers_all, patches, deletes, creates_type, deletes_type, run_prices,
}
use ticketing_system.Pricing.Offers.{AreOffered, Leaves}
use ticketing_system.Pricing.Sales.{run_prices-Leaves}
use ticketing_system.Samples.{with_order_of}

abbrev sold_floor : Database
sold_floor = with_order_of OrderStatus.completed

abbrev boss : User
boss = record { id = 9; is_active = true; roles = Role.admin ∷ []; organizers = [] }

abbrev requests : List PriceRequest
requests =
    creates_type boss "Student"
    ∷ offers_all boss 1 1 (record { ticket_type_id = 1; price_net = 9000; vat_rate = 123 })
        (record { ticket_type_id = 2; price_net = 5000; vat_rate = 123 } ∷ [])
    ∷ patches boss 8 (record { price_net = some 12000; vat_rate = none })
    ∷ deletes boss 8
    ∷ deletes boss 9
    ∷ deletes_type boss 1
    ∷ []

sold_floor-AreOffered : AreOffered sold_floor
unfolding exists
sold_floor-AreOffered = record {
  offers = record {
    keys = (refl, (refl, tt));
    below = (omega arith, (omega arith, tt));
    distinct = (refl, (refl, tt));
  };
  types = record { keys = (refl, tt); below = (omega arith, tt); distinct = (refl, tt) };
  referred = (refl, (refl, tt));
  payable = ((omega arith, omega arith), ((omega arith, omega arith), tt));
  known = (refl, tt);
}

run_prices-Leaves_example : Leaves sold_floor (run_prices sold_floor requests)
run_prices-Leaves_example = run_prices-Leaves sold_floor requests sold_floor-AreOffered
