-- ===== src/Tests/Streams.antt =====
-- A device with two RX channels and one TX channel, and a stream on the second RX channel.
use soapy_sidekiq.Base.{ℕ, ◌+◌, ◌≡◌, refl, true, false, arith, List, [], ◌∷◌, none, some, ok}
use soapy_sidekiq.Base.Double.{finite}
use soapy_sidekiq.Base.Int.{ℤ, pos, negsuc, eqb_ℤ}
use soapy_sidekiq.RxQueue.{empty_queue}
use soapy_sidekiq.RxSession.{RxStreamBackend}
use soapy_sidekiq.RxSession.Lifecycle.{empty_session}
use soapy_sidekiq.StreamRequest.{rx, cs16_name, validate_stream_request, parse_format, is_text}
use soapy_sidekiq.Streams.{
  Constants, Device, StreamHandle, find_stream_handle, stream_direction, get_handle,
}
use soapy_sidekiq.Streams.Activate.{Starting, activate_stream}
use soapy_sidekiq.Streams.Ownership.{IsSound, Keeps}
use soapy_sidekiq.Streams.Ownership.Closing.{Closes, close_stream-Closes}
use soapy_sidekiq.Streams.Ownership.Deactivating.{AreErrors, is_free}
use soapy_sidekiq.Streams.Ownership.Opening.{IsFresh, SetsUp}
use soapy_sidekiq.Streams.Ownership.Opening.Atomic.{setup_stream_atomic}
use soapy_sidekiq.Streams.Ownership.Reachable.{IsNew, new, sets_up, reachable-IsSound}
use soapy_sidekiq.Streams.Ownership.Starting.{activate_stream_ends}
use soapy_sidekiq.Streams.Setup.{SetupSdk, setup_stream, setup_rx, order_rx, publish_rx}
use soapy_sidekiq.Streams.Stop.{Stopping, close_stream}
use soapy_sidekiq.Tx.{Tx}
use soapy_sidekiq.Tx.BlockPool.{Allocation, block, block_without_owner, build_pool}
use soapy_sidekiq.Tx.BlockPool.Balance.{IsWhole, pooled, handed_out, build_pool_balanced}
use soapy_sidekiq.Tx.Slots.{occurs}

abbrev pub constants : Constants
constants = record {
  rx_direction = pos 1;
  tx_direction = pos 0;
  time_flag = 4;
  stream_error = negsuc 1;
  not_supported = negsuc 4;
  enodev = negsuc 18;
  rx_header_size = 24;
  no_handle = 9;
}

constants-AreErrors : AreErrors constants
constants-AreErrors = record { stream_error_fails = refl; not_supported_fails = refl }

abbrev ring : Tx
ring = record {
  completion = record { slots = []; completed = 0 };
  in_flight = [];
  block_index = 0;
  block_size = 1020;
  writes_stopping = true;
  active_writers = 0;
  first_transmit = false;
  start_finished = false;
  start_status = pos 0;
  underruns = 0;
}

abbrev pub new_device : Device
new_device = record {
  session = some (empty_session (empty_queue 4));
  active_rx_stream = none;
  active_tx_stream = none;
  num_rx_channels = 2;
  num_tx_channels = 1;
  rx_table = λ channel. channel + 2;
  tx_table = λ channel. channel;
  rx_payload_size_in_words = 1018;
  rx_use_short = true;
  tx_use_short = true;
  iq_swap = true;
  rf_time_source = true;
  sys_freq = 40000000;
  tx_buffer_count = 2;
  tx = ring;
  tx_thread = false;
  tx_stream_active = false;
  has_tx_blocks = false;
}

new_device-IsNew : IsNew new_device
new_device-IsNew = record {
  no_rx = refl;
  no_tx = refl;
  idle_rx = refl;
  idle_tx = refl;
  no_thread = refl;
}

new_device-IsSound : IsSound new_device
new_device-IsSound = record {
  rx_stream = tt;
  tx_stream = tt;
  apart = tt;
  rx_held = λ h. cc h;
  tx_held = λ h. cc h;
  thread_active = λ h. cc h;
}

abbrev sdk : SetupSdk
sdk = record {
  rx_block_size = pos 4096;
  system_frequency = (pos 0, 40000000);
  iq_order = pos 0;
  transfer_timeout = pos 0;
  address = 100;
  allocations = [];
}

new_device-IsFresh : IsFresh 100 new_device
new_device-IsFresh = record { not_null = omega arith; rx_elsewhere = refl; tx_elsewhere = refl }

is_rx : stream_direction constants (pos 1) ≡ ok rx
unfolding stream_direction
is_rx = refl

setup_stream_atomic_example :
    SetsUp rx 1 new_device (setup_stream constants sdk (pos 1) cs16_name (1 ∷ []) false new_device)
setup_stream_atomic_example =
    setup_stream_atomic constants sdk (pos 1) rx cs16_name (1 ∷ []) false new_device
      new_device-IsSound new_device-IsFresh is_rx

abbrev handle : StreamHandle
handle = record { address = 100; direction = rx; channel = 1; rx_handle = 3; tx_handle = 9 }

abbrev pub open_device : Device
open_device = record new_device { active_rx_stream = some handle }

open_device-IsSound : IsSound open_device
open_device-IsSound = record {
  rx_stream = (refl, omega arith);
  tx_stream = tt;
  apart = tt;
  rx_held = λ h. refl;
  tx_held = λ h. cc h;
  thread_active = λ h. cc h;
}

known : find_stream_handle open_device 100 ≡ some handle
unfolding find_stream_handle
known = refl

abbrev backend : RxStreamBackend
backend = record {
  start_stream = λ handle on_pps. ok (pos 0);
  stop_stream = λ handle on_pps. ok (pos 0);
}

abbrev stopping : Stopping
stopping = record {
  backend = backend;
  results = [];
  events = [];
  start = ok (pos 0);
  stop_tx = λ handle on_pps. pos 0;
}

close_stream-Closes_example :
    Closes rx 100 open_device (close_stream constants stopping 100 open_device)
close_stream-Closes_example =
    close_stream-Closes constants stopping 100 open_device handle open_device-IsSound
      constants-AreErrors known

abbrev starting : Starting
starting = record {
  backend = backend;
  thread_starts = true;
  actual_rate = (pos 0, finite false 4503599627370496 (pos 21));
  system_frequency = (pos 0, 40000000);
  iq_order = pos 0;
  tx_block_size = pos 0;
  tx_data_flow_mode = pos 0;
  tx_transfer_mode = pos 0;
  num_tx_threads = pos 0;
  start_tx = pos 0;
}

activate_stream_ends_example :
    (status : ℤ) × (d' : Device) × (activate_stream constants starting 100 4 (pos 0) 0 open_device
      ≡ some (ok status, d'))
    × Keeps open_device d'
    × (eqb_ℤ status (pos 0) ≡ true → is_free rx d' ≡ false)
activate_stream_ends_example =
    activate_stream_ends constants starting 100 4 (pos 0) 0 open_device handle open_device-IsSound
      constants-AreErrors (omega arith, omega arith) known

reachable-IsSound_example :
    IsSound (setup_stream constants sdk (pos 1) cs16_name (1 ∷ []) false new_device).1
reachable-IsSound_example =
    reachable-IsSound constants
      (setup_stream constants sdk (pos 1) cs16_name (1 ∷ []) false new_device).1 constants-AreErrors
      (sets_up sdk (pos 1) cs16_name (1 ∷ []) false (new new_device-IsNew) new_device-IsFresh)

-- The owner of the second block cannot be made.
abbrev allocations : List Allocation
allocations = block 7 ∷ block_without_owner 8 ∷ []

build_pool_balanced_example :
    IsWhole 2 (build_pool 2 1020 allocations).outcome (build_pool 2 1020 allocations).released
    × ((b : ℕ)
        → occurs b (pooled (build_pool 2 1020 allocations).outcome)
            + occurs b (build_pool 2 1020 allocations).released
          ≡ occurs b (handed_out 2 allocations))
build_pool_balanced_example = build_pool_balanced 2 1020 allocations (omega arith) (omega arith)

-- The stream that was set up is the one above.
set_up : (setup_stream constants sdk (pos 1) cs16_name (1 ∷ []) false new_device).0 ≡ ok 100
unfolding setup_stream stream_direction validate_stream_request parse_format is_text get_handle
    setup_rx order_rx publish_rx
set_up = refl
