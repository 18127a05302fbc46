-- ===== src/Heartbeat/Laws.antt =====
-- When the timer of src/room/server/ClientSession.cpp and src/chat/server/ChatSession.cpp closes a
-- session.
use mathlib.Core.Path.{subst}
use project_sos_backend.Heartbeat.{
  Session, start, reset_heartbeat_timer, close, read_handler, timer_handler, HeartbeatEvent,
  read_ended, ticked, timer_ended, tick, heartbeat_step, heartbeat_run,
}
use project_sos_backend.Base.{
  ℕ, ◌+◌, ◌≤◌, ◌<◌, ◌≡◌, ◌⊎◌, inl, inr, sym, true, false, some, List, [], ◌∷◌, arith, Bool-cases,
}

module _ (timeout : ℕ) (positive : 1 ≤ timeout) where
  -- An open session has a wait that ends `timeout` after the last read, or one that has ended.
  record IsWatched (s : Session) : Type 0 where
    watched : s.closed ≡ false → (s.armed ≡ some (s.active + timeout)) ⊎ (1 ≤ s.due)

  step-IsWatched :
      (e : HeartbeatEvent) (s : Session) → IsWatched s → IsWatched (heartbeat_step timeout e s)
  unfolding heartbeat_step read_handler tick timer_handler close reset_heartbeat_timer
  step-IsWatched (read_ended now closes) s h = record { watched = ground (arith, h.watched) }
  step-IsWatched (ticked now) s h = record { watched = ground (arith, h.watched) }
  step-IsWatched timer_ended s h = record { watched = ground (arith, h.watched) }

  run-IsWatched :
      (events : List HeartbeatEvent) (s : Session)
      → IsWatched s
      → IsWatched (heartbeat_run timeout events s)
  unfolding heartbeat_run
  run-IsWatched [] s h = h
  run-IsWatched (e ∷ events) s h =
      run-IsWatched events (heartbeat_step timeout e s) (step-IsWatched e s h)

  start-IsWatched : (begun : ℕ) → IsWatched (start timeout begun)
  unfolding start reset_heartbeat_timer
  start-IsWatched begun = record { watched = ground arith }

  IsWatched-silent :
      (s : Session) (now : ℕ)
      → IsWatched s
      → s.active + timeout ≤ now
      → (heartbeat_run timeout (ticked now ∷ timer_ended ∷ []) s).closed ≡ true
  unfolding heartbeat_run heartbeat_step tick timer_handler close
  IsWatched-silent s now h late = elim (Bool-cases s.closed) [
    | inl down ↦ ground arith
    | inr up ↦ elim (h.watched up) [ inl e ↦ ground arith | inr due ↦ ground arith ]
  ]

  -- Where the timeout is not zero: whatever has happened to a session, once `timeout` has passed since
  -- it began or was last read, a tick of the clock and the handler of the wait leave it closed.
  pub heartbeat_run-silent :
      (events : List HeartbeatEvent) (begun now : ℕ)
      → (heartbeat_run timeout events (start timeout begun)).active + timeout ≤ now
      → (heartbeat_run timeout
          (ticked now ∷ timer_ended ∷ [])
          (heartbeat_run timeout events (start timeout begun))).closed
        ≡ true
  heartbeat_run-silent events begun now late =
      IsWatched-silent (heartbeat_run timeout events (start timeout begun)) now
        (run-IsWatched events (start timeout begun) (start-IsWatched begun)) late

  -- Reads that succeed, and ticks of the clock before `timeout` has passed since the last read.
  unfoldable pub AllTimely : List HeartbeatEvent → ℕ → Type 0
  AllTimely [] active = Unit
  AllTimely (read_ended now closes ∷ events) active = (closes ≡ false) × AllTimely events now
  AllTimely (ticked now ∷ events) active = (now < active + timeout) × AllTimely events active
  AllTimely (timer_ended ∷ events) active = AllTimely events active

  run-timely :
      (events : List HeartbeatEvent) (s : Session)
      → s.closed ≡ false
      → s.armed ≡ some (s.active + timeout)
      → s.due ≡ 0
      → AllTimely events s.active
      → (heartbeat_run timeout events s).closed ≡ false
  unfolding heartbeat_run AllTimely heartbeat_step read_handler tick timer_handler
      reset_heartbeat_timer
  run-timely [] s up armed due p = up
  run-timely (read_ended now closes ∷ events) s up armed due p =
      let s1 = heartbeat_step timeout (read_ended now closes) s in
      run-timely events s1 (ground arith) (ground arith) (ground arith)
        (subst (AllTimely events) (sym (let a : s1.active ≡ now = ground arith in a)) p.1)
  run-timely (ticked now ∷ events) s up armed due p =
      let e : heartbeat_step timeout (ticked now) s ≡ s = ground arith in
      rw (e, heartbeat_run) (run-timely events s up armed due p.1)
  run-timely (timer_ended ∷ events) s up armed due p =
      let e : heartbeat_step timeout timer_ended s ≡ s = ground arith in
      rw (e, heartbeat_run) (run-timely events s up armed due p)

  -- Where the timeout is not zero: a session stays open while its reads succeed and no tick of the
  -- clock comes when `timeout` has passed since the last of them.
  pub heartbeat_run-timely :
      (events : List HeartbeatEvent) (begun : ℕ)
      → AllTimely events begun
      → (heartbeat_run timeout events (start timeout begun)).closed ≡ false
  unfolding start reset_heartbeat_timer
  heartbeat_run-timely events begun p =
      run-timely events (start timeout begun) (ground arith) (ground arith) (ground arith) (
        subst (AllTimely events)
          (sym (let a : (start timeout begun).active ≡ begun = ground arith in a)) p)
