-- ===== src/Throttle/Tests.antt =====
-- Runs of the throttle (core/internal/throttle/throttle.go).
use notekeeper.Common.{◌+◌, ◌==◌, if◌then◌else◌, ◌-◌, ◌*◌, ◌≡◌, refl, none, some, [], ◌∷◌, arith}
use notekeeper.Throttle.Charges.{charges, failures_of, charge_spacing}
use notekeeper.Throttle.{Row, Table, Charge, pair, account, second, delay, charge}

abbrev empty : Table
empty = λ k. none

abbrev login : Charge
login = record { key = 1; policy = pair }

abbrev name_only : Charge
name_only = record { key = 2; policy = account }

abbrev blocked_row : Row
blocked_row = record { failures = 3; blocked_until = some 500; updated_at = 90 }

abbrev one_blocked : Table
one_blocked k = if k == 1 then some blocked_row else none

first_charge : (charge empty 100 login).0 ≡ 0
unfolding charge
first_charge = refl

first_delay : 2 * second ≡ delay pair (failures_of ((charge empty 100 login).1 1))
unfolding charge delay
first_delay = refl

charge_spacing_example :
    (charge
      (charges (charge empty 100 login).1 ((200, login) ∷ (300, name_only) ∷ []))
      400
      (record { key = 1; policy = account })).0
    ≡ 100 + 2 * second - 400
charge_spacing_example =
    charge_spacing empty 100 login ((200, login) ∷ (300, name_only) ∷ []) 400 account (2 * second)
      first_charge first_delay (omega arith, (omega arith, tt)) (omega arith) (omega arith)

abbrev few_row : Row
few_row = record { failures = 3; blocked_until = none; updated_at = 90 }

abbrev few_failures : Table
few_failures k = if k == 2 then some few_row else none

charges_it : (charge few_failures 100 name_only).0 ≡ 0
unfolding charge
charges_it = refl
