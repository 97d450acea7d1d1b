-- ===== src/Examples/LogTests.antt =====
-- The theorem on the lists that capture lines, where one is started while lines are logged.
use way_displays.Prelude.{◌≡◌, true, some, List, [], ◌∷◌}
use way_displays.Enums.{LogThreshold}
use way_displays.Log.{log_init}
use way_displays.Log.Captured.{LogCall, calls, captured, watched, calls-captured}

abbrev session : List LogCall
session =
    LogCall.line LogThreshold.error "before"
    ∷ LogCall.start 7 []
    ∷ LogCall.set_threshold (some LogThreshold.error) true
    ∷ LogCall.suppress_start
    ∷ LogCall.line LogThreshold.debug "captured"
    ∷ LogCall.start 8 []
    ∷ LogCall.stop 8
    ∷ LogCall.line LogThreshold.error "captured too"
    ∷ []

calls-captured_example :
    captured 7 (calls log_init session) ≡ watched 7 (captured 7 log_init) session
calls-captured_example = calls-captured 7 log_init session
