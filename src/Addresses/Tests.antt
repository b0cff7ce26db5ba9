-- ===== src/Addresses/Tests.antt =====
-- A member of the organizer at an address changes it.
use ticketing_system.Prelude.{[], ◌∷◌, none, some, true}
use ticketing_system.Errors.{Ensures}
use ticketing_system.Schema.{Database, User, Role}
use ticketing_system.Addresses.{AddressCreate, put_address}
use ticketing_system.Addresses.Access.{Changed, put_address-Changed}
use ticketing_system.Samples.{start}

abbrev member : User
member = record { id = 4; is_active = true; roles = Role.organizer ∷ []; organizers = 1 ∷ [] }

abbrev new_street : AddressCreate
new_street = record {
  city = "Lodz";
  street = "New";
  postal_code = "90001";
  building_number = "1";
  apartment_number = none;
  country_code = "PL";
}

abbrev with_address : Database
with_address = record start {
  addresses =
      record {
        id = 3;
        city = "Lodz";
        street = "Old";
        postal_code = "90001";
        building_number = "1";
        apartment_number = some "2";
        country_code = "PL";
      }
      ∷ [];
  organizers =
      record {
        id = 1;
        name = "Club";
        email = "club@x.pl";
        phone_number = "1";
        address_id = 3;
        vat_number = none;
        registration_number = none;
        iban = none;
        country_code = "PL";
        is_active = true;
      }
      ∷ [];
}

put_address-Changed_example :
    Ensures
      (Changed with_address member 3 new_street)
      (put_address with_address member 3 new_street)
put_address-Changed_example = put_address-Changed with_address member 3 new_street
