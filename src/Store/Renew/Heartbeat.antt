-- ===== src/Store/Renew/Heartbeat.antt =====
-- What a heartbeat answers and leaves.
use mathlib.Core.List.{Memᴰ}
use mathlib.Core.List.Memᴰ
use paceq.Base.{List}
