-- ===== src/Mask.antt =====
-- include/yazpp/socket-observer.h: the event bits of an observer, as a record of them.
use yazpp.Prelude.{Bool, false, ◌||◌}

pub record Mask : Type 0 where
  pub read : Bool
  pub write : Bool
  pub except : Bool
  pub timeout : Bool

abbrev pub no_events : Mask
no_events = record { read = false; write = false; except = false; timeout = false }

-- `if (mask)`.
abbrev pub any : Mask → Bool
any m = m.read || (m.write || (m.except || m.timeout))
