-- ===== src/Window/Examples.antt =====
-- A device with two windows, one of which cannot be read.
use retune.Base.{List, [], bytes, true, ◌%◌, ◌*◌, ◌+◌, ◌/◌, ◌↔◌, ◌∷◌, ◌≡◌, ◌⊎◌}
use retune.Window.{Item, Window, Zone, open_at, unreadable_window, window_item, windows_from}
use retune.Window.Opening.{HasWindow, SomeOpens, open_at_iff}

abbrev utc : Zone
utc = record {
  local_day = λ t. t / 86400;
  local_clock = λ t. t % 86400;
  date = λ day second. day * 86400 + second;
}

abbrev nightly : Window
nightly = record { days = []; start = bytes "22:30"; duration_minutes = 240 }

abbrev check_in : List Item
check_in = unreadable_window ∷ window_item nightly ∷ []

-- One in the morning of the second day.
open_at_iff_example :
    (open_at utc (windows_from check_in) 90000 ≡ true)
    ↔ ((¬ HasWindow check_in) ⊎ SomeOpens utc 90000 check_in)
open_at_iff_example = open_at_iff utc 90000 check_in
