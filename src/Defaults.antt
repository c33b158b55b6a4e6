-- ===== src/Defaults.antt =====
-- shared/Defaults.h.in: the keys of request arguments and the texts of status values.
pub mod Args
use tkmcollector.Prelude.{ℕ, String, Bool, nat_eq}

pub data Arg : Type 0 where
  id request_id forced status reason what : Arg
  device_hash device_name device_address device_port session_hash : Arg

abbrev rank : Arg → ℕ
rank Arg.id = 0
rank Arg.request_id = 1
rank Arg.forced = 2
rank Arg.status = 3
rank Arg.reason = 4
rank Arg.what = 5
rank Arg.device_hash = 6
rank Arg.device_name = 7
rank Arg.device_address = 8
rank Arg.device_port = 9
rank Arg.session_hash = 10

abbrev pub arg_eq : Arg → Arg → Bool
arg_eq j k = nat_eq (rank j) (rank k)

pub data Val : Type 0 where
  true false status_okay status_error status_busy : Val

abbrev pub val_for : Val → String
val_for Val.true = "True"
val_for Val.false = "False"
val_for Val.status_okay = "Okay"
val_for Val.status_error = "Error"
val_for Val.status_busy = "Busy"
