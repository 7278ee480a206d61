-- ===== src/Spec/Examples.antt =====
-- Durations as a job file writes them.
use paceq.Base.{◌≢◌, ◌/◌, ◌*◌, ◌^◌, ◌≡◌, refl, arith}
use paceq.Base.Int.{pos}
use paceq.Base.Result.{ok, err}
use paceq.Base.Bytes.{codes}
use paceq.Spec.Duration.{endless, parse_duration, format_duration}
use paceq.Spec.Duration.Reading.{IsRead, parse_duration-IsRead}
use paceq.Spec.Duration.RoundTrip.{parse_duration-format_duration}
use paceq.Spec.Duration.Ends.{parse_duration_ends}

parse_duration-IsRead_example : IsRead (codes "1h1.5s") (pos 3601500000000)
unfolding parse_duration
parse_duration-IsRead_example = parse_duration-IsRead (codes "1h1.5s") (pos 3601500000000) refl

parse_duration-format_duration_example :
    parse_duration (format_duration (pos 3601500000000))
    ≡ ok (pos (3601500000000 / 10 ^ 6 * 10 ^ 6))
parse_duration-format_duration_example =
    parse_duration-format_duration 3601500000000 (omega arith) (omega arith)

parse_duration_ends_example : parse_duration (codes "5") ≢ err endless
parse_duration_ends_example = parse_duration_ends (codes "5")
