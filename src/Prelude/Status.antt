-- ===== src/Prelude/Status.antt =====
-- `status_t` of headers/support/Errors.h. The code tests a status for being B_OK or not; every
-- other value is negative, so that `error >= B_OK` is the same test.
use mathlib.Core.Bool.{Bool, true, false}

pub data Status : Type 0 where
  ok no_memory bad_index bad_type mismatched_values name_not_found no_init general_error : Status
  bad_value name_too_long entry_not_found not_allowed not_supported : Status
  timed_out interrupted would_block bad_reply : Status
  link_limit file_exists file_error busy posix_error : Status
  bad_port_id no_more_ports bad_team_id : Status

abbrev pub is_ok : Status → Bool
is_ok ok = true
is_ok _ = false
