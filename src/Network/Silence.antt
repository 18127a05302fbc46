-- ===== src/Network/Silence.antt =====
-- The heartbeat timers of all the sessions of a server.
pub mod Runs
use mathlib.Core.Path.{subst}
use project_sos_backend.Codec.{receive}
use project_sos_backend.WriteQueue.{write_handler}
use project_sos_backend.Heartbeat as Heartbeat
use project_sos_backend.Network.{
  Host, Line, Net, NetEvent, connected, read_ended, write_ended, ticked, timer_ended, happened,
  set_line, new_line, follow, give, give_all, settle, read_bytes, read_failed, write_done,
  wait_done, net_step, net_run,
}
use project_sos_backend.Network.Kept.{OnSome}
use project_sos_backend.Base.{
  ℕ, zero, suc, ◌+◌, ◌-◌, ◌≤◌, ◌≡◌, ◌⊎◌, inl, inr, refl, sym, ap, ◌∙◌, Bool, true, false, Option,
  none, some, List, [], ◌∷◌, eqb, option_cases, if_cases, arith, if◌then◌else◌,
}

-- A session that is closed stays closed until its object is gone, `close` closes it, and no object is
-- made where there is one.
pub record Closes {W R M C E : Type 0} (host : Host W R M C E) : Type 0 where
  pub connect :
      (a b : ℕ) (c : C) (w : W)
      → host.is_closed w b ≡ true
      → eqb b a ≡ false
      → host.is_closed (host.connect a c w) b ≡ true
  pub process :
      (a b now : ℕ) (rs : List R) (w : W)
      → host.is_closed w b ≡ true
      → host.is_closed (host.process a now rs w) b ≡ true
  pub close :
      (a b : ℕ) (w : W) → host.is_closed w b ≡ true → host.is_closed (host.close a w) b ≡ true
  pub closing : (a : ℕ) (w : W) → host.is_closed (host.close a w) a ≡ true
  pub other :
      (e : E) (b : ℕ) (w : W) → host.is_closed w b ≡ true → host.is_closed (host.other e w) b ≡ true
  pub clear : (b : ℕ) (w : W) → host.is_closed (host.clear w) b ≡ host.is_closed w b

-- A wait ends `timeout` after the last read, or has ended.
abbrev pub Armed : ℕ → Heartbeat.Session → Type 0
Armed timeout s = (s.armed ≡ some (s.active + timeout)) ⊎ (1 ≤ s.due)

-- What is not closed afterwards was not closed before.
pub still_open :
    (before after : Bool) → (before ≡ true → after ≡ true) → after ≡ false → before ≡ false
still_open true after stays up = cc (stays refl)
still_open false after stays up = refl

pub goes_on :
    {R : Type 0} (requests : List R) (closed : Bool)
    → closed ≡ false
    → elim requests [ [] ↦ false | _ ∷ _ ↦ closed ] ≡ false
goes_on [] closed e = refl
goes_on (request ∷ requests) closed e = e

module _ {M : Type 0} (serialize : M → List ℕ) where
  timer-give_all :
      (out : List (ℕ × M)) (lines : ℕ → Line M) (b : ℕ)
      → (give_all serialize out lines b).timer ≡ (lines b).timer
  unfolding give_all set_line give
  timer-give_all [] lines b = refl
  timer-give_all ((a, m) ∷ out) lines b =
      timer-give_all out (set_line a (give serialize m (lines a)) lines) b ∙ ground arith

pub set_line-same :
    {M : Type 0} (a : ℕ) (l : Line M) (lines : ℕ → Line M) → set_line a l lines a ≡ l
unfolding set_line
set_line-same a l lines = ground arith

timer-follow :
    {M : Type 0} (closed : Bool) (l : Line M) → closed ≡ false → (follow closed l).timer ≡ l.timer
unfolding follow
timer-follow true l e = cc
timer-follow false l e = refl

module _ {W R M C E : Type 0} (host : Host W R M C E) (closes : Closes host)
    (serialize : M → List ℕ) (parse : List ℕ → Option R) (timeout : ℕ) where
  -- Every open session has a wait.
  abbrev pub Watched : Net W M → Type 0
  Watched n = (b : ℕ) → host.is_closed n.host b ≡ false → Armed timeout (n.lines b).timer

  pub settle-Watched :
      (w : W) (lines : ℕ → Line M)
      → ((b : ℕ) → host.is_closed w b ≡ false → Armed timeout (lines b).timer)
      → Watched (settle host serialize w lines)
  unfolding settle
  settle-Watched w lines h b up =
      let live : host.is_closed w b ≡ false = sym (closes.clear b w) ∙ up in
      let same : ((settle host serialize w lines).lines b).timer ≡ (lines b).timer =
        timer-follow (host.is_closed w b) (give_all serialize (host.out w) lines b) live
        ∙ timer-give_all serialize (host.out w) lines b in
      subst (Armed timeout) (sym same) (h b live)

  -- A step of the server that keeps closed sessions closed, with another line for one session.
  pub settle_line-Watched :
      (w : W) (a : ℕ) (l : Line M) (n : Net W M)
      → ((b : ℕ) → host.is_closed n.host b ≡ true → eqb b a ≡ false → host.is_closed w b ≡ true)
      → (host.is_closed w a ≡ false → Armed timeout l.timer)
      → Watched n
      → Watched (settle host serialize w (set_line a l n.lines))
  unfolding set_line
  settle_line-Watched w a l n stays here h = settle-Watched w (set_line a l n.lines) (λ b up.
      if_cases (λ (k : Line M). Armed timeout k.timer) (eqb b a) _ _
        (λ same.
          here (let e : b ≡ a = ground arith in subst (λ c. host.is_closed w c ≡ false) e up))
        (λ differs. h b (
          still_open (host.is_closed n.host b) (host.is_closed w b) (λ down. stays b down differs)
            up)))

  pub read_handler-Armed :
      (now : ℕ) (closing : Bool) (s : Heartbeat.Session)
      → 1 ≤ timeout
      → closing ≡ false
      → Armed timeout (Heartbeat.read_handler timeout now closing s)
  unfolding Heartbeat.read_handler Heartbeat.reset_heartbeat_timer
  read_handler-Armed now closing s positive e = ground arith

  pub start-Armed : (now : ℕ) → 1 ≤ timeout → Armed timeout (Heartbeat.start timeout now)
  unfolding Heartbeat.start Heartbeat.reset_heartbeat_timer
  start-Armed now positive = ground arith

  pub tick-Armed :
      (now : ℕ) (s : Heartbeat.Session) → Armed timeout s → Armed timeout (Heartbeat.tick now s)
  unfolding Heartbeat.tick
  tick-Armed now s h = ground (arith, h)
