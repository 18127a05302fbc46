-- ===== src/Network/Kept.antt =====
-- What the handlers of a server keep, they keep through its connections.
use mathlib.Core.Path.{subst}
use project_sos_backend.WriteQueue.{write_handler}
use project_sos_backend.Network.{
  Host, Net, NetEvent, connected, read_ended, write_ended, ticked, timer_ended, happened, set_line,
  settle, read_bytes, read_failed, write_done, wait_done, net_step, net_run,
}
use project_sos_backend.Codec.{receive}
use project_sos_backend.Base.{
  ℕ, zero, suc, ◌≡◌, Bool, true, false, Option, none, some, List, [], ◌∷◌, option_cases, if_cases,
  if◌then◌else◌,
}

-- Where there is a result, it has a property.
abbrev pub OnSome {ℓ} : {A : Type ℓ} → (A → Type 0) → Option A → Type 0
OnSome P none = Unit
OnSome P (some x) = P x

-- Every operation keeps a property of the server's state. No object is made where there is one, and
-- `Q` tells in which states a session has bytes read.
pub record Keeps {W R M C E : Type 0} (host : Host W R M C E) (Q : W → ℕ → Type 0) (P : W → Type 0)
    : Type 0 where
  pub connect : (a : ℕ) (c : C) (w : W) → host.is_taken w a ≡ false → P w → P (host.connect a c w)
  pub process : (a now : ℕ) (rs : List R) (w : W) → Q w a → P w → P (host.process a now rs w)
  pub close : (a : ℕ) (w : W) → P w → P (host.close a w)
  pub other : (e : E) (w : W) → P w → P (host.other e w)
  pub clear : (w : W) → P w → P (host.clear w)

module _ {W R M C E : Type 0} (host : Host W R M C E) (serialize : M → List ℕ)
    (parse : List ℕ → Option R) (timeout : ℕ) where
  abbrev Reads : (W → ℕ → Type 0) → NetEvent C E → Net W M → Type 0
  Reads Q (read_ended a (some bytes) now) n = (n.lines a).reading ≡ true → Q n.host a
  Reads Q _ n = Unit

  -- Whenever the handler of a read that has brought bytes runs, `Q` holds.
  unfoldable pub AllReads : (W → ℕ → Type 0) → List (NetEvent C E) → Net W M → Type 0
  AllReads Q [] n = Unit
  AllReads Q (e ∷ events) n =
      let rest = elim (net_step host serialize parse timeout e n) as (λ _. Type 0) [
        | none ↦ Unit
        | some n1 ↦ AllReads Q events n1
      ] in
      Reads Q e n × rest

module _ {W R M C E : Type 0} (host : Host W R M C E) (serialize : M → List ℕ)
    (parse : List ℕ → Option R) (timeout : ℕ) (Q : W → ℕ → Type 0) (P : W → Type 0)
    (keeps : Keeps host Q P) where
  abbrev pub HostHas : Net W M → Type 0
  HostHas n = P n.host

  write_done-keeps :
      (a : ℕ) (failed : Bool) (n : Net W M)
      → HostHas n
      → OnSome HostHas (write_done host serialize parse timeout a failed n)
  unfolding write_done settle
  write_done-keeps a failed n h =
      option_cases (OnSome HostHas) (write_handler failed (n.lines a).socket) _ _ (λ _. tt)
        λ s _.
          let w = if failed then host.close a n.host else n.host in
          let kept : P w =
            if_cases P failed (host.close a n.host) n.host (λ _. keeps.close a n.host h) (λ _. h) in
          elim (n.lines a).socket.in_flight
            as (λ q. OnSome HostHas (elim q [
              | [] ↦ some n
              | _ ∷ _ ↦
                  some (
                    settle host serialize w
                      (set_line a (record (n.lines a) { socket = s }) n.lines))
            ])) [ [] ↦ h | _ ∷ _ ↦ keeps.clear w kept ]

  wait_done-keeps :
      (a : ℕ) (n : Net W M) → HostHas n → HostHas (wait_done host serialize parse timeout a n)
  unfolding wait_done settle
  wait_done-keeps a n h =
      elim (n.lines a).timer.due
        as (λ k. HostHas (elim k [
          | zero ↦ n
          | suc j ↦ settle host serialize (host.close a n.host) (
              set_line a (record (n.lines a) { timer = record (n.lines a).timer { due = j } })
                n.lines)
        ])) [ zero ↦ h | suc j ↦ keeps.clear (host.close a n.host) (keeps.close a n.host h) ]

  net_step-keeps :
      (e : NetEvent C E) (n : Net W M)
      → Reads host serialize parse timeout Q e n
      → HostHas n
      → OnSome HostHas (net_step host serialize parse timeout e n)
  unfolding net_step read_bytes read_failed settle
  net_step-keeps (connected a c now) n may h =
      if_cases (OnSome HostHas) (host.is_taken n.host a) _ _ (λ _. h)
        λ free. keeps.clear (host.connect a c n.host) (keeps.connect a c n.host free h)
  net_step-keeps (read_ended a none now) n may h =
      if_cases (OnSome HostHas) (n.lines a).reading _ _
        (λ _. keeps.clear (host.close a n.host) (keeps.close a n.host h)) (λ _. h)
  net_step-keeps (read_ended a (some bytes) now) n may h =
      let requests = (receive parse (n.lines a).buffer bytes).0 in
      if_cases (OnSome HostHas) (n.lines a).reading _ _
        (λ reads.
          keeps.clear (host.process a now requests n.host)
            (keeps.process a now requests n.host (may reads) h))
        (λ _. h)
  net_step-keeps (write_ended a failed) n may h = write_done-keeps a failed n h
  net_step-keeps (ticked a now) n may h = h
  net_step-keeps (timer_ended a) n may h = wait_done-keeps a n h
  net_step-keeps (happened e) n may h = keeps.clear (host.other e n.host) (keeps.other e n.host h)

  net_run-OnSome :
      (events : List (NetEvent C E)) (n : Net W M)
      → AllReads host serialize parse timeout Q events n
      → HostHas n
      → OnSome HostHas (net_run host serialize parse timeout events n)
  unfolding net_run AllReads
  net_run-OnSome [] n may h = h
  net_run-OnSome (e ∷ events) n may h =
      let first = net_step-keeps e n may.0 h in
      option_cases (OnSome HostHas) (net_step host serialize parse timeout e n) _ _ (λ _. tt)
        λ n1 some_.
          net_run-OnSome events n1
            (subst
              (λ (o : Option (Net W M)). elim o as (λ _. Type 0) [
                | none ↦ Unit
                | some m ↦ AllReads host serialize parse timeout Q events m
              ])
              some_ may.1)
            (subst (OnSome HostHas) some_ first)

  pub net_run-keeps :
      (events : List (NetEvent C E)) (n n' : Net W M)
      → net_run host serialize parse timeout events n ≡ some n'
      → AllReads host serialize parse timeout Q events n
      → P n.host
      → P n'.host
  net_run-keeps events n n' runs may h = subst (OnSome HostHas) runs (net_run-OnSome events n may h)

module _ {W R M C E : Type 0} (host : Host W R M C E) (serialize : M → List ℕ)
    (parse : List ℕ → Option R) (timeout : ℕ) where
  Reads-any :
      (e : NetEvent C E) (n : Net W M) → Reads host serialize parse timeout (λ _ _. Unit) e n
  Reads-any (connected a c now) n = tt
  Reads-any (read_ended a none now) n = tt
  Reads-any (read_ended a (some bytes) now) n = λ _. tt
  Reads-any (write_ended a failed) n = tt
  Reads-any (ticked a now) n = tt
  Reads-any (timer_ended a) n = tt
  Reads-any (happened e) n = tt

  pub AllReads-any :
      (events : List (NetEvent C E)) (n : Net W M)
      → AllReads host serialize parse timeout (λ _ _. Unit) events n
  unfolding AllReads
  AllReads-any [] n = tt
  AllReads-any (e ∷ events) n = (
    Reads-any e n,
    elim (net_step host serialize parse timeout e n)
        as (λ o. elim o as (λ _. Type 0) [
          | none ↦ Unit
          | some m ↦ AllReads host serialize parse timeout (λ _ _. Unit) events m
        ]) [ none ↦ tt | some m ↦ AllReads-any events m ],
  )
