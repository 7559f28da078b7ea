-- ===== src/Examples/Control.antt =====
-- The theorems on the control loop of native/src/runtime.rs at work: a shutdown whose time runs out while
-- a command runs.
use kestara_webrtc.Base.{ℕ, ◌+◌, ◌<◌, ◌≤◌, ◌≡◌, ◌≢◌, refl, ap, some, [], ◌∷◌, arith}
use kestara_webrtc.Events.{completions}
use kestara_webrtc.Runtime.Command.{Command, operation_handle}
use kestara_webrtc.Runtime.Control.{
  Phase, serving, leaving, ended, Control, submit, receive, taken_down, Internal, receives, expires,
  goes_down, abandons, submits, opened, Reachable, opens, inside, outside,
}
use kestara_webrtc.Runtime.Control.Account.{Accounted, every_command-Accounted}
use kestara_webrtc.Runtime.Control.Ends.{
  Steps, stays, steps, measure, loop_terminates, shutdown_ends, returned_stuck,
}
use kestara_webrtc.Runtime.Control.Refines.{Follows, service, control_refines_service}
use kestara_webrtc.Examples.{send_hello}

abbrev stop_it : Command
stop_it = Command.shutdown 8 2000

abbrev is_serving : Phase → ℕ
is_serving serving = 1
is_serving _ = 0

serves_on : serving ≢ ended
serves_on e = let a : 1 ≡ 0 = ap is_serving e in omega (arith, a)

abbrev both_sent : Control
both_sent = submit stop_it (submit send_hello opened)

abbrev stopping : Control
stopping = receive stop_it [] (receive send_hello (stop_it ∷ []) both_sent)

abbrev late : Control
late = record stopping { phase = leaving (some 8) }

abbrev returned : Control
returned = taken_down (some 8) late

abbrev over : Control
over = record returned { running = []; lost = send_hello ∷ [] }

both_sent-Reachable : Reachable both_sent
unfolding submit
both_sent-Reachable =
    outside (outside opens (submits send_hello serves_on refl)) (submits stop_it serves_on refl)

stopping-Reachable : Reachable stopping
unfolding submit receive operation_handle
stopping-Reachable =
    inside (inside both_sent-Reachable (receives send_hello (stop_it ∷ []) refl refl))
      (receives stop_it [] refl refl)

over-Reachable : Reachable over
unfolding submit receive operation_handle taken_down
over-Reachable =
    inside (inside (inside stopping-Reachable (expires 8 refl)) (goes_down (some 8) refl))
      (abandons send_hello [] [] refl refl)

every_command-Accounted_example : Accounted 7 over
every_command-Accounted_example = every_command-Accounted 7 over over-Reachable

control_refines_service_example : Follows (service opened) (service over)
control_refines_service_example = control_refines_service over over-Reachable

stopping_run : Steps 3 stopping over
unfolding submit receive operation_handle taken_down
stopping_run =
    steps (steps (steps stays (expires 8 refl)) (goes_down (some 8) refl))
      (abandons send_hello [] [] refl refl)

loop_terminates_example : 3 + measure over ≤ measure stopping
loop_terminates_example = loop_terminates stopping_run

-- Nothing runs and no phase has a step any more.
over-stuck : (k : Control) → Internal over k → ⊥
unfolding taken_down submit receive operation_handle
over-stuck k s = returned_stuck s refl refl refl

shutdown_ends_example :
    (over.phase ≡ ended) × (completions 8 stopping.events < completions 8 over.events)
unfolding submit receive operation_handle
shutdown_ends_example = shutdown_ends 8 3 stopping over refl stopping_run over-stuck
