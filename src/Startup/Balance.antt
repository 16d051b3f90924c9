-- ===== src/Startup/Balance.antt =====
-- A constructor that throws holds nothing of the SDK.
use soapy_sidekiq.Base.{
  ℕ, ◌+◌, ◌≡◌, refl, ap, inl, inr, Bool, true, false, Bool-cases, Outcome, ok, throw, ◌>>=◌,
  if◌then◌else◌,
}
use soapy_sidekiq.Base.Int.{ℤ}
use soapy_sidekiq.Clock.{succeeds}
use soapy_sidekiq.DeviceOptions.{DeviceOptions, Arguments, parse_device_options}
use soapy_sidekiq.RxSession.{Session}
use soapy_sidekiq.RxSession.Lifecycle.{construct, empty_session, owns_hardware_or_worker}
use soapy_sidekiq.RxQueue.{Queue, make}
use soapy_sidekiq.Startup.{
  StartSdk, Resources, require, select_topology, count_channels, sample_full_scale,
  tx_sample_full_scale, assemble_with, on_failure, exit, unregister, initialize_tx_callbacks,
  assemble, with_callbacks, configure, completed, configured, guarded, start_up, with_options,
  construct_device,
}
use soapy_sidekiq.Streams.{Constants, Device}
use soapy_sidekiq.Streams.Ownership.Reachable.{IsNew}

-- Before the constructor runs nothing is held, and `exits` calls were made.
abbrev pub nothing : ℕ → Resources
nothing exits = record { initialized = false; callback = false; exits = exits }

-- Whether `skiq_init` is called, and succeeds.
abbrev pub was_initialized : ℤ → Outcome DeviceOptions → Bool
was_initialized init (throw e) = false
was_initialized init (ok options) = succeeds init

-- How the constructor ends, when it began with nothing held; `works` says whether `skiq_init` succeeded.
abbrev pub Ends : Bool → ℕ → Outcome Device → Resources → Type 0
Ends works exits (ok d) r =
    IsNew d × (r.initialized ≡ true) × (r.callback ≡ true) × (r.exits ≡ exits)
Ends works exits (throw e) r =
    (r.initialized ≡ false)
    × (r.callback ≡ false)
    × (r.exits ≡ (if works then exits + 1 else exits))

-- What registering leaves.
abbrev Registers : Resources → Outcome (Unit {0}) → Resources → Type 0
Registers r (ok done) r' =
    (r'.callback ≡ true) × (r'.initialized ≡ r.initialized) × (r'.exits ≡ r.exits)
Registers r (throw e) r' = (r'.callback ≡ false) × (r'.exits ≡ r.exits)

initialize_tx_callbacks-Registers :
    (status : ℤ) (traced : Outcome (Unit {0})) (r : Resources)
    → r.callback ≡ false
    → Registers r
        (initialize_tx_callbacks status traced r).0
        (initialize_tx_callbacks status traced r).1
unfolding initialize_tx_callbacks
initialize_tx_callbacks-Registers status traced r c = elim (Bool-cases (succeeds status)) [
  | inr fails ↦ simp fails (c, refl)
  | inl works ↦ simp works (by_sink traced)
]
  where
    by_sink :
        (o : Outcome (Unit {0}))
        → Registers r o (on_failure unregister o (record r { callback = true }))
    by_sink (ok done) = (refl, refl, refl)
    by_sink (throw e) = (refl, refl)

abbrev GivesNew : Outcome Device → Type 0
GivesNew (ok d) = IsNew d
GivesNew (throw e) = Unit

bind-GivesNew :
    {A : Type 0} (m : Outcome A) (f : A → Outcome Device)
    → ((a : A) → GivesNew (f a))
    → GivesNew (m >>= f)
bind-GivesNew (ok a) f h = h a
bind-GivesNew (throw e) f h = tt

module _ {H : Type 0} (k : Constants) (sdk : StartSdk H) where
  assemble_with-GivesNew :
      (options : DeviceOptions) (session : Session)
      → owns_hardware_or_worker session ≡ false
      → GivesNew (assemble_with k sdk options session)
  unfolding assemble_with
  assemble_with-GivesNew options session idle =
      bind-GivesNew (select_topology k sdk options.topology) _ (λ a.
        bind-GivesNew (require sdk.read_parameters) _ (λ b.
          bind-GivesNew (require sdk.frequency.0) _ (λ c.
            bind-GivesNew (require sdk.iq_order) _ (λ d.
              bind-GivesNew (count_channels k sdk sdk.rx_channels) _ (λ rx_channels.
                bind-GivesNew (count_channels k sdk sdk.tx_channels) _ (λ tx_channels.
                  bind-GivesNew (require sdk.rx_resolution.0) _ (λ e.
                    bind-GivesNew (sample_full_scale sdk.rx_resolution.1) _ (λ f.
                      bind-GivesNew (require sdk.tx_resolution.0) _ (λ g.
                        bind-GivesNew (tx_sample_full_scale sdk.tx_resolution.1 sdk.upper_bits) _
                          (λ h. bind-GivesNew (require sdk.chan_mode) _ (λ i. record {
                            no_rx = refl;
                            no_tx = refl;
                            idle_rx = idle;
                            idle_tx = refl;
                            no_thread = refl;
                          })))))))))))

  assemble-GivesNew :
      (capacity : ℕ) (options : DeviceOptions) → GivesNew (assemble k sdk capacity options)
  unfolding assemble construct
  assemble-GivesNew capacity options = of_queue (make capacity)
    where
      of_queue :
          (q : Outcome Queue)
          → GivesNew (q >>= (λ queue. ok (empty_session queue)) >>= assemble_with k sdk options)
      of_queue (ok queue) = assemble_with-GivesNew options (empty_session queue) refl
      of_queue (throw e) = tt

  abbrev pub IsBalanced : Outcome DeviceOptions → ℕ → Outcome Device × Resources × H → Type 0
  IsBalanced options exits started =
      Ends (was_initialized sdk.init options) exits started.0 started.1

  abbrev held : ℕ → Resources
  held exits = record (nothing exits) { initialized = true }

  with_callbacks-Registers :
      (d : Device) (exits : ℕ) (o : Outcome (Unit {0}))
      → Registers
          (held exits)
          (with_callbacks k sdk d (held exits) o).0
          (with_callbacks k sdk d (held exits) o).1
  with_callbacks-Registers d exits (throw e) = (refl, refl)
  with_callbacks-Registers d exits (ok done) =
      initialize_tx_callbacks-Registers sdk.register_callback sdk.traced (held exits) refl

  configured-IsBalanced :
      (options : DeviceOptions) (hardware : H) (exits : ℕ) (o : Outcome Device)
      → GivesNew o
      → Ends true exits
          (guarded k sdk (configured k sdk options hardware (held exits) o)).0
          (guarded k sdk (configured k sdk options hardware (held exits) o)).1
  unfolding configure
  configured-IsBalanced options hardware exits (throw e) n = (refl, refl, refl)
  configured-IsBalanced options hardware exits (ok d) n =
      ended _ _ (with_callbacks-Registers d exits _)
    where
      ended :
          (o : Outcome (Unit {0})) (r : Resources)
          → Registers (held exits) o r
          → Ends true exits (completed k sdk d o) (on_failure exit (completed k sdk d o) r)
      ended (ok done) r w = (n, w.1, w.0, w.2)
      ended (throw e) r w = (refl, w.0, ap (λ x. x + 1) w.1)

  -- A constructor of a device that throws, for its arguments, for any answer of the SDK, for a rate, a source or
  -- the callback, or in the log sink after it, holds nothing of the SDK: no callback is registered, and
  -- `skiq_exit` was called once if `skiq_init` had succeeded before, and else not at all. A constructor that
  -- returns holds both and has called no `skiq_exit`, and the device is new: it has no stream, and nothing
  -- runs.
  pub construct_device-IsBalanced :
      (capacity : ℕ) (arguments : Arguments) (hardware : H) (exits : ℕ)
      → IsBalanced
          (parse_device_options arguments)
          exits
          (construct_device k sdk capacity arguments hardware (nothing exits))
  unfolding construct_device start_up
  construct_device-IsBalanced capacity arguments hardware exits =
      parsed (parse_device_options arguments)
    where
      parsed :
          (o : Outcome DeviceOptions)
          → IsBalanced o exits (with_options k sdk capacity hardware (nothing exits) o)
      parsed (throw e) = (refl, refl, refl)
      parsed (ok options) = elim (Bool-cases (succeeds sdk.init)) [
        | inr fails ↦ simp fails (refl, refl, refl)
        | inl works ↦ simp works (
            configured-IsBalanced options hardware exits (assemble k sdk capacity options)
              (assemble-GivesNew capacity options))
      ]
