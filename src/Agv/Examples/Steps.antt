-- ===== src/Agv/Examples/Steps.antt =====
-- The theorems on reachable states at a controller that takes on an order and then an update.
use vda_5050_lib_js.Common.{inl, refl, ◌≡◌}
use vda_5050_lib_js.Agv.Examples.{able, extension, idle, trip}
use vda_5050_lib_js.Agv.Steps.{Reachable, order_received, started, stepped}
use vda_5050_lib_js.Agv.Steps.Invariant.{Reachable-Handled, Reachable-IsValid}
use vda_5050_lib_js.Agv.Orders.Total.{process_order-Handled}
use vda_5050_lib_js.Agv.Orders.Handled.{Handled, IsValid}
use vda_5050_lib_js.Agv.Orders.{conforming, process_order}
use vda_5050_lib_js.Agv.Controller.{Controller, done}

taken :
    (c' : Controller) × (process_order able (conforming trip) idle ≡ done c')
    × Handled able trip idle c'
taken = process_order-Handled able trip idle (λ current e. absurd (cc))

taken-Reachable : Reachable able idle taken.0
taken-Reachable =
    stepped idle taken.0 started (order_received (conforming trip) taken.0 (inl taken.1))

Reachable-IsValid_example : IsValid taken.0
Reachable-IsValid_example = Reachable-IsValid able idle taken.0 refl taken-Reachable

Reachable-Handled_example :
    (c' : Controller) × (process_order able (conforming extension) taken.0 ≡ done c')
    × Handled able extension taken.0 c'
Reachable-Handled_example = Reachable-Handled able idle taken.0 extension refl taken-Reachable
