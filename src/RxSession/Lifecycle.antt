-- ===== src/RxSession/Lifecycle.antt =====
-- `activate`, `activateConfigured`, `configureInactive`, `deactivate` and `shutdown`.
use soapy_sidekiq.Base.{
  ℕ, ◌/◌, Bool, true, false, not, ◌&&◌, ◌||◌, none, some, Option, List, [], ◌∷◌, Outcome, ok, throw,
  ◌>>=◌, Exception, invalid_argument, logic_error, ltb, ◌==◌, if◌then◌else◌,
}
use soapy_sidekiq.Base.Int.{ℤ, pos, eqb_ℤ}
use soapy_sidekiq.Base.Words.{uint64_max}
use soapy_sidekiq.Timestamp.Rate.{is_valid, from_frequency}
use soapy_sidekiq.RxQueue.{Queue, make, start, stop, reset}
use soapy_sidekiq.RxSession.ReceiveLoop.{worker_step}
use soapy_sidekiq.RxSession.{
  RxStreamBackend, RxReceiveResult, RxSessionConfiguration, Session, absent, at_gate, joinable,
  is_working,
}

-- The members of a new configuration.
abbrev no_configuration : RxSessionConfiguration
no_configuration = record {
  handle = 0;
  block_samples = 0;
  sample_rate = from_frequency 0;
  system_timestamp_frequency = 0;
  use_rf_timestamp = true;
  on_pps = false;
}

abbrev pub empty_session : Queue → Session
empty_session queue = record {
  queue = queue;
  worker = absent;
  running = false;
  failed = false;
  hardware_overruns = 0;
  timestamp_discontinuities = 0;
  receive_error = pos 0;
  active_configuration = no_configuration;
  active = false;
}

-- The constructor of the session, over the constructor of its queue.
unfoldable pub construct : ℕ → Outcome Session
construct capacity = make capacity >>= (λ queue. ok (empty_session queue))

-- The session with its state, and what a call returns or throws.
abbrev pub Returned : Type 0
Returned = Outcome ℤ × Session

abbrev pub owns_hardware_or_worker : Session → Bool
owns_hardware_or_worker s = s.active || joinable s.worker

-- A stop that ends the ownership of the hardware; `enodev` is the value of -ENODEV.
abbrev pub stops_hardware : ℤ → ℤ → Bool
stops_hardware enodev status = eqb_ℤ status (pos 0) || eqb_ℤ status enodev

-- Whether the hardware is let go after a stop with this outcome.
abbrev pub lets_go : ℤ → Outcome ℤ → Bool
lets_go enodev (ok status) = stops_hardware enodev status
lets_go enodev (throw e) = false

abbrev pub is_usable : RxSessionConfiguration → Bool
is_usable c =
    not (c.block_samples == 0 || ltb (uint64_max / 2) c.block_samples)
    && is_valid c.sample_rate
    && (c.use_rf_timestamp || not (c.system_timestamp_frequency == 0))

-- The state that is published when the hardware has started.
abbrev pub cleared : RxSessionConfiguration → Session → Session
cleared c s = record s {
  active_configuration = c;
  hardware_overruns = 0;
  timestamp_discontinuities = 0;
  receive_error = pos 0;
  failed = false;
}

abbrev pub owned : Session → Session
owned s = record s { active = true }

unfoldable pub published : RxSessionConfiguration → Session → Session
published c s = owned (cleared c s)

-- The operations that other threads see one by one.
abbrev pub store_running : Bool → Session → Session
store_running running s = record s { running = running }

abbrev pub start_queue : Session → Session
start_queue s = record s { queue = start s.queue }

abbrev pub stop_queue : Session → Session
stop_queue s = record s { queue = stop s.queue }

abbrev pub reset_queue : Session → Session
reset_queue s = record s { queue = reset s.queue }

abbrev pub create_thread : RxSessionConfiguration → Session → Session
create_thread c s = record s { worker = at_gate c none }

-- The queue is open and the session runs, before the thread is created.
unfoldable pub opened : Session → Session
opened s = store_running true (start_queue s)

unfoldable pub launched : RxSessionConfiguration → Session → Session
launched c s = create_thread c (opened s)

-- The roll-back of a thread that could not be created. The stop does not wait for PPS, and what it
-- throws is dropped.
unfoldable pub rolled_back : ℤ → Outcome ℤ → Session → Session
rolled_back enodev (ok status) s =
    let active = if stops_hardware enodev status then false else s.active in
    record s { running = false; queue = reset s.queue; active = active }
rolled_back enodev (throw e) s = record s { running = false; queue = reset s.queue }

-- What follows the start of the hardware. `thread_starts` is whether `std::thread` does not throw.
unfoldable pub started :
    ℤ → RxStreamBackend → Bool → RxSessionConfiguration → Session → Outcome ℤ → Returned
started enodev b thread_starts c s (throw e) = (throw e, s)
started enodev b thread_starts c s (ok status) =
    let s' = published c s in
    if not (eqb_ℤ status (pos 0))
    then (ok status, s)
    else if thread_starts
    then (ok (pos 0), launched c s')
    else (throw Exception.foreign, rolled_back enodev (b.stop_stream c.handle false) (opened s'))

unfoldable pub activate : ℤ → RxStreamBackend → Bool → RxSessionConfiguration → Session → Returned
activate enodev b thread_starts c s =
    if not (is_usable c)
    then (throw invalid_argument, s)
    else if owns_hardware_or_worker s
    then (throw logic_error, s)
    else started enodev b thread_starts c s (b.start_stream c.handle c.on_pps)

abbrev pub prepared :
    ℤ → RxStreamBackend → Bool → Session → Outcome RxSessionConfiguration → Returned
prepared enodev b thread_starts s (throw e) = (throw e, s)
prepared enodev b thread_starts s (ok c) = activate enodev b thread_starts c s

-- The callback `prepare` reads the device; here it is what the callback returns.
unfoldable pub activate_configured :
    ℤ → RxStreamBackend → Bool → Outcome RxSessionConfiguration → Session → Returned
activate_configured enodev b thread_starts prepare s =
    if owns_hardware_or_worker s
    then (throw logic_error, s)
    else prepared enodev b thread_starts s prepare

-- The callback acts on the device, not on the session.
unfoldable pub configure_inactive : Outcome (Unit {0}) → Session → Outcome (Unit {0})
configure_inactive configure s = if owns_hardware_or_worker s then throw logic_error else configure

-- The three parts of `deactivate`: the signal to the worker and to readers, the stop of the hardware, and
-- the join, which waits for the worker to return.
unfoldable pub signal_stop : Session → Session
signal_stop s = stop_queue (store_running false s)

-- `deactivate` calls the backend only for hardware that it owns.
unfoldable pub stop_outcome : RxStreamBackend → Bool → Session → Outcome ℤ
stop_outcome b on_pps s =
    if s.active then b.stop_stream s.active_configuration.handle on_pps else ok (pos 0)

unfoldable pub release_hardware : ℤ → Outcome ℤ → Session → Session
release_hardware enodev (ok status) s =
    if stops_hardware enodev status then record s { active = false } else s
release_hardware enodev (throw e) s = s

unfoldable pub join : Session → Session
join s = record s { worker = absent }

-- The join returns when the worker has; `results` is what the backend still returns to it, and `none`
-- says that the list ends first.
unfoldable pub await_worker : List (Outcome RxReceiveResult) → Session → Option Session
await_worker [] s = if is_working s.worker then none else some s
await_worker (result ∷ results) s =
    let rest = await_worker results (worker_step result s) in
    if is_working s.worker then rest else some s

abbrev pub joined : Outcome ℤ → Option Session → Option Returned
joined outcome none = none
joined outcome (some s) = some (outcome, join s)

-- `deactivate` when no other thread acts on the session meanwhile.
unfoldable pub deactivate :
    ℤ → RxStreamBackend → Bool → List (Outcome RxReceiveResult) → Session → Option Returned
deactivate enodev b on_pps results s =
    let s' = signal_stop s in
    let outcome = stop_outcome b on_pps s' in
    if owns_hardware_or_worker s
    then joined outcome (await_worker results (release_hardware enodev outcome s'))
    else some (ok (pos 0), s)

abbrev pub forgotten : Option Returned → Option Session
forgotten none = none
forgotten (some (ok status, s)) = some s
forgotten (some (throw e, s)) = some (join (signal_stop s))

-- `shutdown`, which drops the outcome and joins once more after an exception.
unfoldable pub shutdown :
    ℤ → RxStreamBackend → List (Outcome RxReceiveResult) → Session → Option Session
shutdown enodev b results s = forgotten (deactivate enodev b false results s)
