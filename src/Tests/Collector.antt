-- ===== src/Tests/Collector.antt =====
-- The theorems on the manager, the dispatcher and the connections at concrete inputs.
use tkmcollector.Prelude.{
  is_some, ℕ, String, ◌≡◌, refl, true, false, some, List, [], ◌∷◌, ◌&&◌, not, str_eq, if◌then◌else◌,
}
use tkmcollector.Outcome.{Returns}
use tkmcollector.Messages.{DataWhat, Recipient, StatusWhat}
use tkmcollector.Requests.{DispatcherAction}
use tkmcollector.Exec.Trace.{device_requests, dispatcher_requests}
use tkmcollector.Exec.ReadLoop.{ReadEnd}
use tkmcollector.MonitorDevice.DataSource.{DataSource}
use tkmcollector.DeviceManager.{Manager, add_device, get_device}
use tkmcollector.DeviceManager.Lookup.{get_device-add_device}
use tkmcollector.Dispatcher
use tkmcollector.Dispatcher.Routing.{Passed, request_handler-Passed, target}
use tkmcollector.ControlClient
use tkmcollector.ControlClient.Requests.{all_asked, on_readable-asked}
use tkmcollector.MonitorConnection
use tkmcollector.MonitorConnection.{MessageType}
use tkmcollector.MonitorConnection.Requests.{all_told, on_readable_told, understood}
use tkmcollector.Tests.Fixtures.{
  board, device_list, device_list-IsLawful, dispatcher_request, linked, old_session, session,
  willing,
}

-- Every address holds the board; the list has it, or is empty.
abbrev one_device : Manager (List DataSource) (List ℕ)
one_device = record { device = λ _. linked; devices = 0 ∷ [] }

abbrev no_device : Manager (List DataSource) (List ℕ)
no_device = record { device = λ _. linked; devices = [] }

get_device-add_device_example :
    Returns
      (λ (added, m', es).
        (added ≡ not (is_some (get_device device_list "d1" no_device)))
        × ((hash : String)
            → get_device device_list hash m' ≡ (
                if added && str_eq "d1" hash
                then some 0
                else get_device device_list hash no_device))
        × Unit {0}
        × (m'.device ≡ no_device.device))
      (add_device device_list 0 no_device)
get_device-add_device_example =
    get_device-add_device device_list device_list-IsLawful no_device 0 tt

request_handler-Passed_example :
    Passed
      (dispatcher_request DispatcherAction.connect_device)
      DispatcherAction.connect_device
      (target device_list one_device (dispatcher_request DispatcherAction.connect_device).bulk_data)
      (Dispatcher.request_handler device_list willing
        (dispatcher_request DispatcherAction.connect_device)
        one_device)
request_handler-Passed_example =
    request_handler-Passed device_list willing (dispatcher_request DispatcherAction.connect_device)
      one_device tt

abbrev pub control_unpack : ControlClient.Unpack String
control_unpack = record {
  device_data = λ hash. record board { hash = hash };
  session_data = λ hash. record old_session { hash = hash };
  session_id = λ id. id;
}

-- A command of the control tool, and a message from elsewhere.
abbrev commands : List (ControlClient.Incoming String)
commands =
    record {
      origin = Recipient.control;
      request = record {
        id = "r1";
        type = ControlClient.RequestType.connect_device;
        forced = true;
        payload = "d1";
      };
    }
    ∷ record {
      origin = Recipient.monitor;
      request = record {
        id = "r2";
        type = ControlClient.RequestType.quit_collector;
        forced = false;
        payload = "";
      };
    }
    ∷ []

on_readable-asked_example :
    Returns
      (λ (b, m', es).
        (b ≡ true)
        × (m' ≡ no_device)
        × (dispatcher_requests es ≡ all_asked control_unpack 7 commands))
      (ControlClient.on_readable control_unpack willing 7 commands ReadEnd.again no_device)
on_readable-asked_example =
    on_readable-asked control_unpack 7 willing (λ _. refl) commands ReadEnd.again no_device
      (λ _. tt, (λ _. tt, tt))

abbrev pub monitor_unpack : MonitorConnection.Unpack String
monitor_unpack = record {
  session_info = λ hash. record session { hash = hash };
  monitor_data = λ text. record {
    what = DataWhat.sys_proc_stat;
    payload = text;
    system_time_sec = 1;
    monotonic_time_sec = 2;
    receive_time_sec = 0;
  };
  status = λ text. record { request_id = "r1"; what = StatusWhat.okay; reason = text };
}

abbrev monitor_messages : List (MonitorConnection.Incoming String)
monitor_messages =
    record { origin = Recipient.monitor; type = MessageType.set_session; payload = "s2"; now = 10 }
    ∷ record {
      origin = Recipient.monitor;
      type = MessageType.monitor_data;
      payload = "cpu";
      now = 11;
    }
    ∷ record { origin = Recipient.monitor; type = MessageType.other; payload = ""; now = 12 }
    ∷ record { origin = Recipient.monitor; type = MessageType.status; payload = ""; now = 13 }
    ∷ []

on_readable_told_example :
    Returns
      (λ (b, m', es).
        (b ≡ false)
        × (m' ≡ linked)
        × (device_requests es ≡ all_told monitor_unpack 42 (understood monitor_messages).0))
      (MonitorConnection.on_readable monitor_unpack 42 "d1" monitor_messages ReadEnd.again linked)
on_readable_told_example =
    on_readable_told monitor_unpack 42 "d1" monitor_messages ReadEnd.again linked
