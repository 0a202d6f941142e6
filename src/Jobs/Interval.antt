-- ===== src/Jobs/Interval.antt =====
-- `nextRunTime` of jobs/service.ts: the intervals of schedules, /^(\d+)([smhd])$/. The delay is
-- exact here; the source's numbers are exact up to 2 ^ 53.
use Prim.Native.Char.{code}
use Prim.Native.String
use appport_services.Common.{
  ℕ, ◌+◌, ◌-◌, ◌*◌, String, Bool, true, false, ◌&&◌, ◌==◌, Option, none, some, leb, eqb,
  if◌then◌else◌,
}
use appport_services.Authority.Errors.{other_error}
use appport_services.Exec.{Result, ok, err}

abbrev pub is_digit : ℕ → Bool
is_digit c = leb b'0' c && leb c b'9'

-- The milliseconds of a unit.
unfoldable pub unit_ms : ℕ → Option ℕ
unit_ms c =
    if eqb c b's'
    then some 1000
    else if eqb c b'm'
    then some 60000
    else if eqb c b'h'
    then some 3600000
    else if eqb c b'd'
    then some 86400000
    else none

abbrev scaled : ℕ → Option ℕ → Option ℕ
scaled value none = none
scaled value (some ms) = some (value * ms)

-- The digits read so far make `value`; `seen` tells whether there was one.
unfoldable pub interval_from : ℕ → Bool → String → Option ℕ
unfolding unit_ms
interval_from value seen String.[] = none
interval_from value seen (String.◌∷◌ c s) =
    let rest = interval_from (value * 10 + (code c - b'0')) true s in
    if is_digit (code c)
    then rest
    else if seen && s == ""
    then scaled value (unit_ms (code c))
    else none

unfoldable pub interval_ms : String → Option ℕ
unfolding interval_from
interval_ms interval = interval_from 0 false interval

abbrev after_delay : ℕ → String → Option ℕ → Result ℕ
after_delay now interval none = err (other_error (String.◌++◌ "Invalid interval format: " interval))
after_delay now interval (some delay) = ok (now + delay)

unfoldable pub next_run_time : ℕ → String → Result ℕ
unfolding interval_ms
next_run_time now interval = after_delay now interval (interval_ms interval)
