-- ===== src/Tests/Settings.antt =====
-- Two channels, of which the second refuses to be switched to its counter, after it has been.
use soapy_sidekiq.Base.{
  ℕ, ◌+◌, ◌==◌, ◌≡◌, refl, Bool, true, false, ◌&&◌, arith, [], throw, runtime_error, if◌then◌else◌,
}
use soapy_sidekiq.Base.Double.{Double}
use soapy_sidekiq.Base.Int.{pos, negsuc}
use soapy_sidekiq.Settings.{Settings, rf_timestamp_text, timetype_key, sys_timestamp_text}
use soapy_sidekiq.Settings.Restoring.{IsFaithful}
use soapy_sidekiq.Settings.RoundTrip.{Shows, write_setting-Shows}
use soapy_sidekiq.Settings.Sources.{
  DataSource, iq, counter, unknown, SourceSdk, switch_all, snapshot, switch_sources, restore,
}
use soapy_sidekiq.Settings.Transaction.{IsTransaction, switch_all-IsTransaction}
use soapy_sidekiq.Settings.Writing.{SettingSdk, write_setting}
use soapy_sidekiq.Tests.Streams.{open_device}

-- The hardware is the source of each handle.
abbrev Hardware : Type 0
Hardware = ℕ → DataSource

abbrev set : Hardware → ℕ → DataSource → Hardware
set h x v y = if x == y then v else h y

abbrev is_counter : DataSource → Bool
is_counter iq = false
is_counter counter = true
is_counter unknown = false

abbrev sources : SourceSdk Hardware
sources = record {
  read_source = λ h x. (pos 0, h x);
  write_source = λ h x v. (if x == 3 && is_counter v then negsuc 4 else pos 0, set h x v);
}

abbrev source_of : Hardware → ℕ → DataSource
source_of h = h

sources-IsFaithful : IsFaithful sources source_of
sources-IsFaithful = record {
  reads = λ h x s. refl;
  writes = λ h x v s. ground arith;
  keeps = λ h x y v n. ground arith;
}

abbrev all_iq : Hardware
all_iq x = iq

abbrev table : ℕ → ℕ
table channel = channel + 2

switch_all-IsTransaction_example :
    IsTransaction sources source_of sources-IsFaithful all_iq counter table 2
      (switch_all sources counter table 2 all_iq).outcome
      (switch_all sources counter table 2 all_iq).rollback_status
      (switch_all sources counter table 2 all_iq).hardware
switch_all-IsTransaction_example =
    switch_all-IsTransaction sources source_of sources-IsFaithful all_iq counter table 2

-- The second write fails, and both are taken back.
second_fails : (switch_all sources counter table 2 all_iq).outcome ≡ throw runtime_error
unfolding switch_all snapshot switch_sources
second_fails = refl

both_taken_back : (switch_all sources counter table 2 all_iq).rollback_status ≡ pos 0
unfolding switch_all snapshot switch_sources restore
both_taken_back = refl

abbrev sdk : SettingSdk Hardware
sdk = record {
  sources = sources;
  write_iq_order = λ h first. (pos 0, h);
  overload_state = λ h x. (pos 0, 0);
  cal_offset = λ h x. (pos 0, Double.zero);
  to_string = λ x. [];
}

abbrev settings : Settings
settings = record {
  device = open_device;
  counter = false;
  timetype = rf_timestamp_text;
  full_scale = 2047;
}

write_setting-Shows_example :
    Shows sdk timetype_key sys_timestamp_text settings
      (write_setting sdk timetype_key sys_timestamp_text settings all_iq)
write_setting-Shows_example =
    write_setting-Shows sdk timetype_key sys_timestamp_text settings all_iq
