-- ===== src/Tests/Startup.antt =====
-- A card whose callback is registered, but whose log sink throws at the end.
use soapy_sidekiq.Base.{ℕ, true, false, ◌*◌, ◌^◌, none, Exception, throw}
use soapy_sidekiq.Base.Double.{finite}
use soapy_sidekiq.Base.Int.{pos}
use soapy_sidekiq.Clock.Pps.{PpsSdk, unavailable}
use soapy_sidekiq.DeviceOptions.{parse_device_options}
use soapy_sidekiq.Rates.{RateSdk}
use soapy_sidekiq.Startup.{StartSdk, construct_device}
use soapy_sidekiq.Startup.Balance.{IsBalanced, nothing, construct_device-IsBalanced}
use soapy_sidekiq.Tests.Clock.{sdk}
use soapy_sidekiq.Tests.DeviceOptions.{arguments}
use soapy_sidekiq.Tests.Streams.{constants}

abbrev rates : RateSdk ℕ
rates = record {
  read_rate = λ h direction handle. record {
    status = pos 0;
    configured_rate = 1000000;
    actual_rate = finite false (15625 * 2 ^ 39) (pos 20);
    actual_bandwidth = 800000;
  };
  write_rate = λ h direction handle rate bandwidth. (pos 0, h);
  min_rate = λ h. (pos 0, 250000);
  max_rate = λ h. (pos 0, 1000000);
}

abbrev pps : PpsSdk ℕ
pps = record {
  read_source = λ h. (pos 0, unavailable);
  write_source = λ h source. (pos 0, h);
  kernel_line = λ h. none;
  kernel_write = λ h text. (false, h);
  last_edge = λ h. (pos 0, h);
  sleep = λ h. (true, h);
}

abbrev start : StartSdk ℕ
start = record {
  init = pos 0;
  topology_supported = false;
  apply_topology = λ topology. pos 0;
  read_parameters = pos 0;
  rx_table = λ channel. channel;
  tx_table = λ channel. channel;
  table_size = 4;
  upper_bits = false;
  frequency = (pos 0, 40000000);
  iq_order = pos 0;
  rx_channels = (pos 0, 2);
  tx_channels = (pos 0, 1);
  rx_resolution = (pos 0, 12);
  tx_resolution = (pos 0, 12);
  chan_mode = pos 0;
  register_callback = pos 0;
  traced = throw Exception.foreign;
  rates = rates;
  clock = sdk;
  pps = pps;
}

construct_device-IsBalanced_example :
    IsBalanced constants start
      (parse_device_options arguments)
      3
      (construct_device constants start 64 arguments 5 (nothing 3))
construct_device-IsBalanced_example = construct_device-IsBalanced constants start 64 arguments 5 3
