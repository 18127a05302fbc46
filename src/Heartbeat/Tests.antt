-- ===== src/Heartbeat/Tests.antt =====
-- The timer of a session at concrete times.
use project_sos_backend.Heartbeat.{
  start, HeartbeatEvent, read_ended, ticked, timer_ended, heartbeat_run,
}
use project_sos_backend.Heartbeat.Laws.{AllTimely, heartbeat_run-timely}
use project_sos_backend.Base.{◌≡◌, refl, false, List, [], ◌∷◌, arith}

-- A session that begins at 100, and is read at 120.
abbrev one_read : List HeartbeatEvent
one_read = ticked 110 ∷ read_ended 120 false ∷ ticked 149 ∷ timer_ended ∷ []

heartbeat_run-timely_example : (heartbeat_run 30 one_read (start 30 100)).closed ≡ false
unfolding AllTimely
heartbeat_run-timely_example =
    heartbeat_run-timely 30 (omega arith) one_read 100 (omega arith, (refl, (omega arith, tt)))
