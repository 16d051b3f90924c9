-- ===== src/RxSession/Steps/Activation.antt =====
-- `activate` starts the whole session or none of it.
use soapy_sidekiq.Base.{
  ◌≡◌, refl, ◌⊎◌, inl, inr, Bool, true, false, not, if◌then◌else◌, ◌||◌, Bool-cases, arith, [],
  Outcome, Exception, ok, throw, none,
}
use soapy_sidekiq.Base.Int.{ℤ, pos, eqb_ℤ}
use soapy_sidekiq.RxQueue.{start, reset}
use soapy_sidekiq.RxSession.{RxSessionConfiguration, RxStreamBackend, Session, at_gate, joinable}
use soapy_sidekiq.RxSession.Lifecycle.{
  Returned, owns_hardware_or_worker, is_usable, published, opened, stops_hardware, lets_go,
  launched, rolled_back, started, activate,
}

abbrev pub is_success : Outcome ℤ → Bool
is_success (ok status) = eqb_ℤ status (pos 0)
is_success (throw e) = false

-- A session that was started with `c`.
pub record IsLaunched (c : RxSessionConfiguration) (t : Session) : Type 0 where
  pub worker_ready : t.worker ≡ at_gate c none
  pub running : t.running ≡ true
  pub owned : t.active ≡ true
  pub configured : t.active_configuration ≡ c
  pub empty : t.queue.blocks ≡ []
  pub accepting : t.queue.running ≡ true
  pub no_failure : (t.failed || t.queue.failed) ≡ false
  pub no_overruns : t.hardware_overruns ≡ 0
  pub no_discontinuities : t.timestamp_discontinuities ≡ 0

-- The two ways in which `activate` ends.
pub record Starts (c : RxSessionConfiguration) (s : Session) (r : Returned) : Type 0 where
  pub succeeded : is_success r.0 ≡ true
  pub usable : is_usable c ≡ true
  pub free : owns_hardware_or_worker s ≡ false
  pub launched : IsLaunched c r.1

-- Nothing has changed.
pub record Refuses (s : Session) (r : Returned) : Type 0 where
  pub not_succeeded : is_success r.0 ≡ false
  pub same : r.1 ≡ s

-- The hardware had started, but the thread could not be created: the session is closed and empty, and owns the
-- hardware only if that does not stop.
pub record RollsBack (enodev : ℤ) (b : RxStreamBackend) (thread_starts : Bool)
    (c : RxSessionConfiguration) (s : Session) (r : Returned) : Type 0 where
  pub no_thread : thread_starts ≡ false
  pub usable : is_usable c ≡ true
  pub free : owns_hardware_or_worker s ≡ false
  pub had_started : is_success (b.start_stream c.handle c.on_pps) ≡ true
  pub thrown : r.0 ≡ throw Exception.foreign
  pub no_worker : joinable r.1.worker ≡ false
  pub stopped : r.1.running ≡ false
  pub closed : r.1.queue.running ≡ false
  pub emptied : r.1.queue.blocks ≡ []
  pub no_failure : (r.1.failed || r.1.queue.failed) ≡ false
  pub owned : r.1.active ≡ not (lets_go enodev (b.stop_stream c.handle false))
  -- With which the hardware can be stopped later.
  pub configured : r.1.active_configuration ≡ c

refused : (s : Session) (o : Outcome ℤ) → is_success o ≡ false → Refuses s (o, s)
refused s o h = record { not_succeeded = h; same = refl }

if_not : (b : Bool) → (if b then false else true) ≡ not b
if_not true = refl
if_not false = refl

rolled_back-RollsBack :
    (enodev : ℤ) (b : RxStreamBackend) (c : RxSessionConfiguration) (s : Session)
    → is_usable c ≡ true
    → owns_hardware_or_worker s ≡ false
    → is_success (b.start_stream c.handle c.on_pps) ≡ true
    → RollsBack enodev b false c s (
      throw Exception.foreign,
      rolled_back enodev (b.stop_stream c.handle false) (opened (published c s)),
    )
unfolding rolled_back opened published reset start
rolled_back-RollsBack enodev b c s u f h = by_stop (b.stop_stream c.handle false) refl
  where
    by_stop :
        (o : Outcome ℤ)
        → b.stop_stream c.handle false ≡ o
        → RollsBack enodev b false c s
            (throw Exception.foreign, rolled_back enodev o (opened (published c s)))
    by_stop (ok status) e = record {
      no_thread = refl;
      usable = u;
      free = f;
      had_started = h;
      thrown = refl;
      no_worker = ground arith;
      stopped = refl;
      closed = refl;
      emptied = refl;
      no_failure = refl;
      owned = rw e (if_not (stops_hardware enodev status));
      configured = refl;
    }
    by_stop (throw x) e = record {
      no_thread = refl;
      usable = u;
      free = f;
      had_started = h;
      thrown = refl;
      no_worker = ground arith;
      stopped = refl;
      closed = refl;
      emptied = refl;
      no_failure = refl;
      owned = rw e refl;
      configured = refl;
    }

launched-IsLaunched :
    (c : RxSessionConfiguration) (s : Session) → IsLaunched c (launched c (published c s))
unfolding launched opened published start
launched-IsLaunched c s = record {
  worker_ready = refl;
  running = refl;
  owned = refl;
  configured = refl;
  empty = refl;
  accepting = refl;
  no_failure = refl;
  no_overruns = refl;
  no_discontinuities = refl;
}

-- The three ways in which `activate` ends.
abbrev pub Activates :
    ℤ → RxStreamBackend → Bool → RxSessionConfiguration → Session → Returned → Type 0
Activates enodev b thread_starts c s r =
    Starts c s r ⊎ Refuses s r ⊎ RollsBack enodev b thread_starts c s r

started-Activates :
    (enodev : ℤ) (b : RxStreamBackend) (thread_starts : Bool) (c : RxSessionConfiguration)
    (s : Session) (o : Outcome ℤ)
    → b.start_stream c.handle c.on_pps ≡ o
    → is_usable c ≡ true
    → owns_hardware_or_worker s ≡ false
    → Activates enodev b thread_starts c s (started enodev b thread_starts c s o)
unfolding started
started-Activates enodev b thread_starts c s (throw e) h u f = inr (inl (refused s (throw e) refl))
started-Activates enodev b thread_starts c s (ok status) h u f =
    elim (Bool-cases (eqb_ℤ status (pos 0))) [
      | inr fails ↦ rw fails (inr (inl (refused s (ok status) fails)))
      | inl works ↦ elim (Bool-cases thread_starts) [
        | inl t ↦
            rw (works, t)
              (inl (record {
                succeeded = refl;
                usable = u;
                free = f;
                launched = launched-IsLaunched c s;
              }))
        | inr t ↦ rw (works, t) (inr (inr (rolled_back-RollsBack enodev b c s u f (rw h works))))
      ]
    ]

-- Whatever the backend returns or throws and whether or not the thread can be created, `activate` does one of
-- three things. It succeeds: then the configuration is usable, the session owned neither hardware nor a worker,
-- and now it runs with that configuration, an empty queue that accepts blocks, counters at zero, no failure and
-- a worker at the start of its loop. Or it does not return 0, and the session is the one of before. Or the
-- hardware had started but the thread could not be created: then it throws, the session has no new worker, does
-- not run, and its queue is empty and closed without a failure; and it owns the hardware, with the
-- configuration to stop it, exactly if the stop of the roll-back threw or failed.
pub activate_all_or_nothing :
    (enodev : ℤ) (b : RxStreamBackend) (thread_starts : Bool) (c : RxSessionConfiguration)
    (s : Session)
    → Activates enodev b thread_starts c s (activate enodev b thread_starts c s)
unfolding activate
activate_all_or_nothing enodev b thread_starts c s = elim (Bool-cases (is_usable c)) [
  | inr bad ↦ rw bad (inr (inl (refused s _ refl)))
  | inl good ↦ elim (Bool-cases (owns_hardware_or_worker s)) [
    | inl busy ↦ simp (good, busy) (inr (inl (refused s _ refl)))
    | inr free ↦
        simp (good, free)
          (started-Activates enodev b thread_starts c s (b.start_stream c.handle c.on_pps) refl good
            free)
  ]
]
