-- ===== src/Offboarding/Examples/Extension.antt =====
-- A run of src/bluelab/lifecycle/service.py: the deadline of an offboarding is extended from 10 to 30.
use bluelab_backend_prod.Prelude.{ℕ, ◌≤◌, ◌≡◌, refl, some, arith}
use bluelab_backend_prod.Offboarding.{LifecycleEvent, LifecycleTables, Org, find_org}
use bluelab_backend_prod.Offboarding.Fence.{IsFenced}
use bluelab_backend_prod.Offboarding.Final.{deadline_grows}
use bluelab_backend_prod.Offboarding.Steps.{perform, perform-step, extends, extension_accepted}
use bluelab_backend_prod.Offboarding.Upheld.{Evolves-IsFenced}
use bluelab_backend_prod.Offboarding.Examples.{
  an_order, leaving, library, renewal_event, tables, tables-IsFenced,
}

abbrev extension_tables : LifecycleTables
extension_tables = perform library 8 (extends 71 30 an_order) tables

extension_tables-IsFenced : IsFenced 20 extension_tables
extension_tables-IsFenced =
    Evolves-IsFenced 20 tables extension_tables
      (perform-step 20 tables library 8 (extends 71 30 an_order) tables-IsFenced (omega arith))
      tables-IsFenced

abbrev extension_event : LifecycleEvent
extension_event = record renewal_event { operation_id = 901 }

abbrev extended_org : Org
extended_org = record leaving { purge_eligible_at = some 30; lifecycle_sequence = 5 }

is_found : find_org 7 extension_tables ≡ some leaving
unfolding perform
is_found = refl

is_extended :
    find_org 7 (perform library 9 (extension_accepted 901 extension_event) extension_tables)
    ≡ some extended_org
unfolding perform
is_extended = refl

deadline_grows_example :
    (extended_org.offboarding_id ≡ some 71)
    × (d' : ℕ) × (extended_org.purge_eligible_at ≡ some d')
    × (10 ≤ d')
deadline_grows_example =
    deadline_grows library 20 9 (extension_accepted 901 extension_event) extension_tables 7 leaving
      extended_org 10 extension_tables-IsFenced (omega arith) is_found refl refl is_extended refl
