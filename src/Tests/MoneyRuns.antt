-- ===== src/Tests/MoneyRuns.antt =====
-- Amounts.
use rydalux_app.Prelude.{◌≡◌, ◌↔◌, ◌%◌, some}
use rydalux_app.Prelude.Int.{pos, negsuc}
use rydalux_app.Money.{decimal_to_minor_units, minor_units_to_decimal}
use rydalux_app.Money.RoundTrip.{decimal-minor_units, negative_round_trip}
use rydalux_app.Tests.Libraries.{plain}

decimal-minor_units_example :
    decimal_to_minor_units (minor_units_to_decimal (pos 123405)) ≡ some (pos 123405)
decimal-minor_units_example = decimal-minor_units 123405

negative_round_trip_example :
    (decimal_to_minor_units (minor_units_to_decimal (negsuc 149)) ≡ some (negsuc 149))
    ↔ (150 % 100 ≡ 0)
negative_round_trip_example = negative_round_trip 149
