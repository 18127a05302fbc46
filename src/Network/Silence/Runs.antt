-- ===== src/Network/Silence/Runs.antt =====
-- The heartbeat timers of all the sessions of a server, through its runs.
use mathlib.Core.Path.{subst}
use project_sos_backend.Codec.{receive}
use project_sos_backend.WriteQueue.{write_handler}
use project_sos_backend.Heartbeat as Heartbeat
use project_sos_backend.Network.{
  Host, Line, Net, NetEvent, connected, read_ended, write_ended, ticked, timer_ended, happened,
  set_line, new_line, settle, read_bytes, read_failed, write_done, wait_done, net_step, net_run,
}
use project_sos_backend.Network.Kept.{OnSome}
use project_sos_backend.Base.{
  ℕ, zero, suc, ◌+◌, ◌-◌, ◌≤◌, ◌≡◌, inl, inr, refl, ap, ◌∙◌, Bool, true, false, Option, none, some,
  List, [], ◌∷◌, eqb, option_cases, if_cases, arith, if◌then◌else◌,
}
use project_sos_backend.Network.Silence.{
  Closes, Armed, Watched, still_open, goes_on, set_line-same, settle-Watched, settle_line-Watched,
  read_handler-Armed, start-Armed, tick-Armed,
}

module _ {W R M C E : Type 0} (host : Host W R M C E) (closes : Closes host)
    (serialize : M → List ℕ) (parse : List ℕ → Option R) (timeout : ℕ) where
  abbrev IsWatched : Net W M → Type 0
  IsWatched n = Watched host closes serialize parse timeout n

  abbrev ticked_line : ℕ → ℕ → Net W M → Line M
  ticked_line a now n = record (n.lines a) { timer = Heartbeat.tick now (n.lines a).timer }

  write_done-Watched :
      (a : ℕ) (failed : Bool) (n : Net W M)
      → IsWatched n
      → OnSome IsWatched (write_done host serialize parse timeout a failed n)
  unfolding write_done
  write_done-Watched a failed n h =
      option_cases (OnSome IsWatched) (write_handler failed (n.lines a).socket) _ _ (λ _. tt)
        λ s _.
          let w = if failed then host.close a n.host else n.host in
          let l : Line M = record (n.lines a) { socket = s } in
          let stays : (b : ℕ) → host.is_closed n.host b ≡ true → host.is_closed w b ≡ true =
            λ b down.
              if_cases (λ v. host.is_closed v b ≡ true) failed (host.close a n.host) n.host
                (λ _. closes.close a b n.host down) (λ _. down) in
          let next =
            settle_line-Watched host closes serialize parse timeout w a l n
              (λ b down _. stays b down)
              (λ up. h a (still_open (host.is_closed n.host a) (host.is_closed w a) (stays a) up))
              h in
          elim (n.lines a).socket.in_flight
            as (λ q. OnSome IsWatched (elim q [
              | [] ↦ some n
              | _ ∷ _ ↦ some (settle host serialize w (set_line a l n.lines))
            ])) [ [] ↦ h | _ ∷ _ ↦ next ]

  -- A handler that closes the session it belongs to.
  close_line-Watched :
      (a : ℕ) (l : Line M) (n : Net W M)
      → IsWatched n
      → IsWatched (settle host serialize (host.close a n.host) (set_line a l n.lines))
  close_line-Watched a l n h =
      settle_line-Watched host closes serialize parse timeout (host.close a n.host) a l n
        (λ b down _. closes.close a b n.host down) (λ up. cc (closes.closing a n.host)) h

  wait_done-Watched :
      (a : ℕ) (n : Net W M) → IsWatched n → IsWatched (wait_done host serialize parse timeout a n)
  unfolding wait_done
  wait_done-Watched a n h =
      elim (n.lines a).timer.due
        as (λ k. IsWatched (elim k [
          | zero ↦ n
          | suc j ↦ settle host serialize (host.close a n.host) (
              set_line a (record (n.lines a) { timer = record (n.lines a).timer { due = j } })
                n.lines)
        ])) [ zero ↦ h | suc j ↦ close_line-Watched a _ n h ]

  ticked-Watched :
      (a now : ℕ) (n : Net W M)
      → IsWatched n
      → IsWatched (record n { lines = set_line a (ticked_line a now n) n.lines })
  unfolding set_line
  ticked-Watched a now n h b up =
      if_cases (λ (k : Line M). Armed timeout k.timer) (eqb b a) _ _
        (λ same.
          let e : b ≡ a = ground arith in
          tick-Armed host closes serialize parse timeout now (n.lines a).timer
            (subst (λ c. Armed timeout (n.lines c).timer) e (h b up)))
        (λ _. h b up)

  net_step-Watched :
      (e : NetEvent C E) (n : Net W M)
      → 1 ≤ timeout
      → IsWatched n
      → OnSome IsWatched (net_step host serialize parse timeout e n)
  unfolding net_step read_bytes read_failed new_line
  net_step-Watched (connected a c now) n positive h =
      if_cases (OnSome IsWatched) (host.is_taken n.host a) _ _ (λ _. h)
        λ _.
          settle_line-Watched host closes serialize parse timeout (host.connect a c n.host) a
            (new_line timeout now) n (λ b down differs. closes.connect a b c n.host down differs)
            (λ _. start-Armed host closes serialize parse timeout now positive) h
  net_step-Watched (read_ended a none now) n positive h =
      if_cases (OnSome IsWatched) (n.lines a).reading _ _ (λ _. close_line-Watched a _ n h) (λ _. h)
  net_step-Watched (read_ended a (some bytes) now) n positive h =
      let requests = (receive parse (n.lines a).buffer bytes).0 in
      let w = host.process a now requests n.host in
      if_cases (OnSome IsWatched) (n.lines a).reading _ _
        (λ _.
          settle_line-Watched host closes serialize parse timeout w a _ n
            (λ b down _. closes.process a b now requests n.host down)
            (λ up.
              read_handler-Armed host closes serialize parse timeout now
                (elim requests [ [] ↦ false | _ ∷ _ ↦ host.is_closed w a ]) (n.lines a).timer
                positive (goes_on requests (host.is_closed w a) up))
            h)
        (λ _. h)
  net_step-Watched (write_ended a failed) n positive h = write_done-Watched a failed n h
  net_step-Watched (ticked a now) n positive h = ticked-Watched a now n h
  net_step-Watched (timer_ended a) n positive h = wait_done-Watched a n h
  net_step-Watched (happened e) n positive h =
      settle-Watched host closes serialize parse timeout (host.other e n.host) n.lines (λ b up.
        h b (
          still_open (host.is_closed n.host b) (host.is_closed (host.other e n.host) b)
            (closes.other e b n.host) up))

  pub net_run-Watched :
      (events : List (NetEvent C E)) (n : Net W M)
      → 1 ≤ timeout
      → IsWatched n
      → OnSome IsWatched (net_run host serialize parse timeout events n)
  unfolding net_run
  net_run-Watched [] n positive h = h
  net_run-Watched (e ∷ events) n positive h =
      let first = net_step-Watched e n positive h in
      option_cases (OnSome IsWatched) (net_step host serialize parse timeout e n) _ _ (λ _. tt)
        λ n1 some_. net_run-Watched events n1 positive (subst (OnSome IsWatched) some_ first)

  due-tick :
      (now : ℕ) (s : Heartbeat.Session)
      → Armed timeout s
      → s.active + timeout ≤ now
      → (k : ℕ) × ((Heartbeat.tick now s).due ≡ suc k)
  unfolding Heartbeat.tick
  due-tick now s (inl armed) late = (s.due, ground arith)
  due-tick now s (inr due) late = ((Heartbeat.tick now s).due - 1, ground arith)

  wait_done-closes :
      (a k : ℕ) (n : Net W M)
      → (n.lines a).timer.due ≡ suc k
      → (lines : ℕ → Line M) × (wait_done host serialize parse timeout a n
          ≡ settle host serialize (host.close a n.host) lines)
  unfolding wait_done
  wait_done-closes a k n e = (
    set_line a (record (n.lines a) { timer = record (n.lines a).timer { due = k } }) n.lines,
    rw (e, wait_done) refl,
  )

  -- Once `timeout` has passed since the last read of an open session, the clock and the handler of
  -- its wait have the server close it.
  pub tick-closes :
      (a now : ℕ) (n : Net W M)
      → IsWatched n
      → host.is_closed n.host a ≡ false
      → (n.lines a).timer.active + timeout ≤ now
      → (lines : ℕ → Line M) × (net_run host serialize parse timeout
            (ticked a now ∷ timer_ended a ∷ [])
            n
          ≡ some (settle host serialize (host.close a n.host) lines))
  unfolding net_run net_step
  tick-closes a now n h up late =
      let n1 : Net W M = record n { lines = set_line a (ticked_line a now n) n.lines } in
      let (k, e) = due-tick now (n.lines a).timer (h a up) late in
      let here : (n1.lines a).timer.due ≡ suc k =
        ap (λ (l : Line M). l.timer.due) (set_line-same a (ticked_line a now n) n.lines) ∙ e in
      let (lines, f) = wait_done-closes a k n1 here in (lines, ap some f)
