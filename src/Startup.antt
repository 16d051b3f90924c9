-- ===== src/Startup.antt =====
-- DeviceLifecycle.cpp, with SampleScale.hpp and ScopeExit.hpp: the constructor and the destructor.
pub mod Balance
use soapy_sidekiq.Base.{
  ℕ, zero, suc, ◌+◌, ◌-◌, ◌^◌, ◌==◌, [], Bool, true, false, not, ◌||◌, Option, none, some, Outcome,
  ok, throw, ◌>>=◌, ◌>>◌, invalid_argument, runtime_error, ltb, if◌then◌else◌,
}
use soapy_sidekiq.Base.Int.{ℤ, pos, eqb_ℤ}
use soapy_sidekiq.Base.Text.{Text}
use soapy_sidekiq.Clock.{ClockSdk, succeeds, set_clock_source}
use soapy_sidekiq.Clock.Pps.{PpsSdk, set_time_source}
use soapy_sidekiq.DeviceOptions.{DeviceOptions, Arguments, parse_device_options}
use soapy_sidekiq.Rates.{RateSdk, RateAndBandwidth, read_rate_and_bandwidth}
use soapy_sidekiq.RxSession.{Session}
use soapy_sidekiq.RxSession.Lifecycle.{construct, shutdown}
use soapy_sidekiq.Streams.{Constants, Device}
use soapy_sidekiq.Streams.Stop.{Stopping, shutdown_tx}
use soapy_sidekiq.Tx.{Tx, zeros}

-- `sampleFullScale`, and `txSampleFullScale` for a product that uses the upper bits or not.
unfoldable pub sample_full_scale : ℕ → Outcome ℕ
sample_full_scale resolution =
    if ltb resolution 2 || ltb 16 resolution
    then throw invalid_argument
    else ok (2 ^ (resolution - 1) - 1)

unfoldable pub tx_sample_full_scale : ℕ → Bool → Outcome ℕ
tx_sample_full_scale resolution upper_bits =
    sample_full_scale resolution
    >>= (λ physical_scale. if upper_bits then sample_full_scale 16 else ok physical_scale)

-- What the SDK answers, with the tables of its parameters, and the log sink after the callback. `upper_bits`
-- says whether the product is one of those.
pub record StartSdk (H : Type 0) : Type 0 where
  pub init : ℤ
  pub topology_supported : Bool
  pub apply_topology : ℕ → ℤ
  pub read_parameters : ℤ
  pub rx_table : ℕ → ℕ
  pub tx_table : ℕ → ℕ
  pub table_size : ℕ
  pub upper_bits : Bool
  pub frequency : ℤ × ℕ
  pub iq_order : ℤ
  pub rx_channels : ℤ × ℕ
  pub tx_channels : ℤ × ℕ
  pub rx_resolution : ℤ × ℕ
  pub tx_resolution : ℤ × ℕ
  pub chan_mode : ℤ
  pub register_callback : ℤ
  pub traced : Outcome (Unit {0})
  pub rates : RateSdk H
  pub clock : ClockSdk H
  pub pps : PpsSdk H

-- What a process holds of the SDK. `exits` counts the calls of `skiq_exit`.
pub record Resources : Type 0 where
  pub initialized : Bool
  pub callback : Bool
  pub exits : ℕ

abbrev pub require : ℤ → Outcome (Unit {0})
require status = if not (succeeds status) then throw runtime_error else ok tt

-- `ScopeExit`: the clean-up of a guard that is released when nothing is thrown.
abbrev pub on_failure {ℓ} :
    {A : Type ℓ} → (Resources → Resources) → Outcome A → Resources → Resources
on_failure cleanup (throw e) r = cleanup r
on_failure cleanup (ok a) r = r

abbrev pub exit : Resources → Resources
exit r = record r { initialized = false; exits = r.exits + 1 }

abbrev pub unregister : Resources → Resources
unregister r = record r { callback = false }

-- `initializeTxCallbacks`.
unfoldable pub initialize_tx_callbacks :
    ℤ → Outcome (Unit {0}) → Resources → Outcome (Unit {0}) × Resources
initialize_tx_callbacks status traced r =
    let registered = record r { callback = true } in
    if not (succeeds status)
    then (throw runtime_error, r)
    else (traced, on_failure unregister traced registered)

-- The members of TX before a stream is set up.
abbrev pub idle_tx : ℕ → ℕ → Tx
idle_tx count block_size = record {
  completion = record { slots = zeros count; completed = 0 };
  in_flight = [];
  block_index = 0;
  block_size = block_size;
  writes_stopping = true;
  active_writers = 0;
  first_transmit = false;
  start_finished = false;
  start_status = pos 0;
  underruns = 0;
}

module _ {H : Type 0} (k : Constants) (sdk : StartSdk H) where
  unfoldable pub select_topology : Option ℕ → Outcome (Unit {0})
  select_topology none = ok tt
  select_topology (some topology) =
      if sdk.topology_supported
      then require (sdk.apply_topology topology)
      else throw invalid_argument

  -- A count of channels that the table can hold.
  unfoldable pub count_channels : ℤ × ℕ → Outcome ℕ
  count_channels (status, channels) =
      require status >> (if ltb sdk.table_size channels then throw runtime_error else ok channels)

  -- The device, without its full scales.
  abbrev pub assembled : DeviceOptions → Session → ℕ → ℕ → Device
  assembled options session rx_channels tx_channels = record {
    session = some session;
    active_rx_stream = none;
    active_tx_stream = none;
    num_rx_channels = rx_channels;
    num_tx_channels = tx_channels;
    rx_table = sdk.rx_table;
    tx_table = sdk.tx_table;
    rx_payload_size_in_words = 1018;
    rx_use_short = true;
    tx_use_short = true;
    iq_swap = true;
    rf_time_source = true;
    sys_freq = sdk.frequency.1;
    tx_buffer_count = options.tx_buffer_count;
    tx = idle_tx options.tx_buffer_count options.tx_block_size;
    tx_thread = false;
    tx_stream_active = false;
    has_tx_blocks = false;
  }

  -- The reads of the constructor, up to the mode of the channels.
  unfoldable pub assemble_with : DeviceOptions → Session → Outcome Device
  assemble_with options session =
      select_topology options.topology
      >> (require sdk.read_parameters
          >> (require sdk.frequency.0
              >> (require sdk.iq_order
                  >> (count_channels sdk.rx_channels >>= (λ rx_channels.
                      count_channels sdk.tx_channels >>= (λ tx_channels.
                        require sdk.rx_resolution.0
                        >> (sample_full_scale sdk.rx_resolution.1 >>= (λ max_value.
                            require sdk.tx_resolution.0
                            >> (tx_sample_full_scale sdk.tx_resolution.1 sdk.upper_bits
                                >>= (λ tx_max_value.
                                    require sdk.chan_mode
                                    >> ok (
                                        assembled options session rx_channels tx_channels)))))))))))

  -- `capacity` is that of the session's queue.
  unfoldable pub assemble : ℕ → DeviceOptions → Outcome Device
  assemble capacity options = construct capacity >>= assemble_with options

  -- One loop of `validateInitialRateConfiguration`.
  unfoldable pub validate_rates : Device → ℤ → H → ℕ → ℕ → Outcome (Unit {0})
  validate_rates d direction hardware zero channel = ok tt
  validate_rates d direction hardware (suc remaining) channel =
      let rest = validate_rates d direction hardware remaining (channel + 1) in
      read_rate_and_bandwidth k sdk.rates d direction channel hardware >>= (λ reading. rest)

  unfoldable pub validate_initial_rates : Device → H → Outcome (Unit {0})
  validate_initial_rates d hardware =
      validate_rates d k.rx_direction hardware d.num_rx_channels 0
      >> validate_rates d k.tx_direction hardware d.num_tx_channels 0

  abbrev pub apply_source :
      (Text → H → Outcome (Unit {0}) × H)
      → Option Text
      → Outcome (Unit {0}) × H
      → Outcome (Unit {0}) × H
  apply_source set source (throw e, hardware) = (throw e, hardware)
  apply_source set none (ok done, hardware) = (ok tt, hardware)
  apply_source set (some source) (ok done, hardware) = set source hardware

  abbrev pub with_callbacks :
      Device → Resources → Outcome (Unit {0}) → Outcome (Unit {0}) × Resources
  with_callbacks d r (throw e) = (throw e, r)
  with_callbacks d r (ok done) = initialize_tx_callbacks sdk.register_callback sdk.traced r

  -- The rest of the constructor, on an assembled device.
  unfoldable pub configure :
      DeviceOptions → H → Device → Resources → Outcome (Unit {0}) × Resources × H
  configure options hardware d r =
      let clocked =
        apply_source (set_clock_source sdk.clock d) options.clock_source
          (validate_initial_rates d hardware, hardware) in
      let timed = apply_source (set_time_source sdk.pps d) options.time_source clocked in
      let registered = with_callbacks d r timed.0 in (registered.0, registered.1, timed.1)

  -- How the constructor ends: the device or an exception, what is held of the SDK, and the hardware.
  abbrev pub Started : Type 0
  Started = Outcome Device × Resources × H

  abbrev pub completed : Device → Outcome (Unit {0}) → Outcome Device
  completed d (throw e) = throw e
  completed d (ok done) = ok d

  abbrev pub configured : DeviceOptions → H → Resources → Outcome Device → Started
  configured options hardware r (throw e) = (throw e, r, hardware)
  configured options hardware r (ok d) =
      let ended = configure options hardware d r in (completed d ended.0, ended.1, ended.2)

  -- The guard that calls `skiq_exit`.
  abbrev pub guarded : Started → Started
  guarded (outcome, r, hardware) = (outcome, on_failure exit outcome r, hardware)

  -- From the call of `skiq_init` on.
  unfoldable pub start_up : ℕ → DeviceOptions → H → Resources → Started
  start_up capacity options hardware r =
      if not (succeeds sdk.init)
      then (throw runtime_error, r, hardware)
      else guarded (
          configured options hardware (record r { initialized = true }) (assemble capacity options))

  abbrev pub with_options : ℕ → H → Resources → Outcome DeviceOptions → Started
  with_options capacity hardware r (throw e) = (throw e, r, hardware)
  with_options capacity hardware r (ok options) = start_up capacity options hardware r

  -- The constructor.
  unfoldable pub construct_device : ℕ → Arguments → H → Resources → Started
  construct_device capacity arguments hardware r =
      with_options capacity hardware r (parse_device_options arguments)

-- The destructor, with the shutdown of TX and of the session.
abbrev pub ended_session : Device → Option Session → Option Device
ended_session d none = none
ended_session d (some s) = some (record d { session = none; active_rx_stream = none })

abbrev pub shut_down_rx : Constants → Stopping → Device → Option Session → Option Device
shut_down_rx k o d none = some (record d { active_rx_stream = none })
shut_down_rx k o d (some s) = ended_session d (shutdown k.enodev o.backend o.results s)

abbrev pub released : Resources → Option Device → Option (Device × Resources)
released r none = none
released r (some d) = some (d, exit (unregister r))

unfoldable pub destroy : Constants → Stopping → Device → Resources → Option (Device × Resources)
destroy k o d r = let d' = shutdown_tx k o d in released r (shut_down_rx k o d' d'.session)
