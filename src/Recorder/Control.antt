-- ===== src/Recorder/Control.antt =====
-- src/sensor_bag_recorder.cpp: the flags that the threads share, the latch of the first fatal error
-- and the request to stop. `stop_requested` is the program's `g_stop_requested`.
use mrp_robo_baton_4p_no_ros.Base.{◌≡◌, Bool, true, String, if◌then◌else◌, arith}

pub record Control : Type 0 where
  pub enabled : Bool
  pub finished : Bool
  pub stopping : Bool
  pub fatal_error : Bool
  pub error_message : String
  pub stop_requested : Bool

unfoldable pub request_stop : Control → Control
request_stop control = record control { stopping = true }

-- `SetFatalError` without its notifications.
unfoldable pub set_fatal_error : String → Control → Control
unfolding request_stop
set_fatal_error message control =
    if control.fatal_error
    then request_stop control
    else request_stop
        (record control { fatal_error = true; error_message = message; stop_requested = true })

-- The first error is kept, and each error stops the workers.
pub set_fatal_error_first :
    (first later : String) (control : Control)
    → set_fatal_error later (set_fatal_error first control) ≡ set_fatal_error first control
unfolding set_fatal_error
set_fatal_error_first first later control = ground arith

-- After a fatal error the flag is set.
pub set_fatal_error_lem :
    (message : String) (control : Control) → (set_fatal_error message control).fatal_error ≡ true
unfolding set_fatal_error
set_fatal_error_lem message control = ground arith
