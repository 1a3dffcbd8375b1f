-- ===== src/Fakecloud/Examples.antt =====
-- The theorems about providers/fakecloud at a small fleet.
use bigfleet_demo.Common.{◌≡◌, some, List, arith, Text, codes}
use bigfleet_demo.Common.Listing.{Distinct}
use bigfleet_demo.Fakecloud.Catalog.{Instance}
use bigfleet_demo.Fakecloud.Multiplex.{
  new, describe, prefix_of, create_instance, configure_instance, drain_instance, delete_instance,
  err, invalid_machine,
}
use bigfleet_demo.Fakecloud.Multiplex.Fleet.{ids, describe-Distinct}
use bigfleet_demo.Fakecloud.Multiplex.Size.{foreign_refused}
use bigfleet_demo.Fakecloud.Sample.{kit, few}

describe-Distinct_example :
    (xs : List (Instance kit)) × (describe kit (new kit few) ≡ some xs) × Distinct (ids kit xs)
describe-Distinct_example = describe-Distinct kit few

abbrev stranger : Text
stranger = codes "azure-0001"

foreign_refused_example :
    (create_instance kit (new kit few) stranger ≡ err (invalid_machine stranger))
    × (configure_instance kit (new kit few) stranger ≡ err (invalid_machine stranger))
    × (drain_instance kit (new kit few) stranger ≡ err (invalid_machine stranger))
    × (delete_instance kit (new kit few) stranger ≡ err (invalid_machine stranger))
unfolding prefix_of
foreign_refused_example =
    foreign_refused kit few stranger (λ e. ground (arith, e)) (λ e. ground (arith, e))
      (λ e. ground (arith, e))
