-- ===== src/Tests/Device.antt =====
-- The theorems on a device at concrete inputs.
use tkmcollector.Prelude.{◌++◌, ◌≡◌, refl, true, List, []}
use tkmcollector.Outcome.{Returns, Ensures, ending, crashes, null_pointer}
use tkmcollector.Messages.{DeviceState, RequestType}
use tkmcollector.Requests.{DeviceAction}
use tkmcollector.Exec.{UpdateLane, ◌>>◌}
use tkmcollector.MonitorDevice.{connection_removed, new_device}
use tkmcollector.MonitorDevice.DataSource.{DataSource, collector_envelope, update_callback}
use tkmcollector.MonitorDevice.Connect.{do_connect}
use tkmcollector.MonitorDevice.Collect.{
  do_start_stream, do_stop_collecting, do_stop_stream, request_handler,
}
use tkmcollector.MonitorDevice.Lanes.{update_lane}
use tkmcollector.MonitorDevice.Lanes.Keeps.{stale_stream_crashes}
use tkmcollector.MonitorDevice.Replies.{IsServed, request_handler-IsServed}
use tkmcollector.MonitorDevice.Endings.{ending-request_handler}
use tkmcollector.MonitorDevice.Transitions.{IsStep, request_handler-IsStep}
use tkmcollector.MonitorDevice.Removal.{
  IsFailed, IsReleased, connection_removed-IsReleased, do_connect_ends_again, start_stop_timers,
  three_lanes, timers_added, timers_removed,
}
use tkmcollector.MonitorDevice.Reach.{Inv, Reach, Reach-Inv, Step}
use tkmcollector.Tests.Fixtures.{
  board, device_request, dropped, linked, refusing, source_list, source_list-IsLawful, willing,
}

request_handler-IsServed_example :
    IsServed
      (device_request DeviceAction.connect)
      (request_handler source_list willing (device_request DeviceAction.connect) dropped)
request_handler-IsServed_example =
    request_handler-IsServed source_list willing (device_request DeviceAction.connect) dropped tt

ending-request_handler_example :
    ending (
      request_handler source_list willing
        (device_request DeviceAction.disconnect)
        (new_device [] (record board { state = DeviceState.loaded })))
    ≡ crashes
unfolding new_device
ending-request_handler_example =
    ending-request_handler source_list willing (device_request DeviceAction.disconnect)
      (new_device [] (record board { state = DeviceState.loaded }))

request_handler-IsStep_example :
    Ensures
      (λ (_, d', _). IsStep DeviceAction.start_stream linked d')
      (request_handler source_list willing (device_request DeviceAction.start_stream) linked)
request_handler-IsStep_example =
    request_handler-IsStep source_list willing (device_request DeviceAction.start_stream) linked

-- A refused request, as a history of one step.
collecting_refused : Reach source_list (new_device [] board) (new_device [] board)
unfolding request_handler do_stop_collecting new_device
collecting_refused =
    Reach.next Reach.here
      (Step.handles willing (device_request DeviceAction.stop_collecting) true _ refl)

Reach-Inv_example : Inv {L = List DataSource} board (new_device [] board)
Reach-Inv_example = Reach-Inv source_list board collecting_refused

stale_stream_crashes_example :
    Returns
      (λ (_, d', _). update_lane source_list willing UpdateLane.fast d' ≡ null_pointer)
      (do_start_stream source_list dropped)
unfolding update_callback
stale_stream_crashes_example =
    stale_stream_crashes source_list source_list-IsLawful willing UpdateLane.fast dropped
      (collector_envelope "GetProcAcct" RequestType.get_proc_acct) [] tt refl refl

connection_removed-IsReleased_example :
    Returns
      (λ (_, d', es). IsReleased linked (record { is_open = true; prepared = true }) d' es)
      (connection_removed linked)
connection_removed-IsReleased_example =
    connection_removed-IsReleased linked (record { is_open = true; prepared = true }) refl

do_connect_ends_again_example :
    Returns
      (λ (_, d', es). IsFailed (device_request DeviceAction.connect) "s1" d' es)
      (do_connect refusing (device_request DeviceAction.connect) dropped)
do_connect_ends_again_example =
    do_connect_ends_again refusing (device_request DeviceAction.connect) dropped refl refl refl

start_stop_timers_example :
    Returns
      (λ (_, _, es). (timers_added es ≡ three_lanes) × (timers_removed es ≡ three_lanes))
      ((do do_start_stream source_list; do_stop_stream) linked)
    × Returns
        (λ (_, _, es).
          (timers_added es ≡ three_lanes ++ three_lanes) × (timers_removed es ≡ three_lanes))
        ((do do_start_stream source_list; do_start_stream source_list; do_stop_stream) linked)
start_stop_timers_example = start_stop_timers source_list linked
