-- ===== src/Notify.antt =====
-- The notices that the console shows (web/src/utils/layout.js). The library that shows them is not
-- modelled: a notice is the value that is handed to it.
use tio.Common.{String}

pub record Notice : Type 0 where
  pub title : String
  pub message : String
  pub kind : String

abbrev pub notify_fail : String → Notice
notify_fail message = record { title = "Failure"; message = message; kind = "error" }

abbrev pub notify_warn : String → Notice
notify_warn message = record { title = "Warning"; message = message; kind = "warning" }

abbrev pub notify_done : String → Notice
notify_done message = record { title = "Success"; message = message; kind = "success" }
