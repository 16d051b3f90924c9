-- ===== src/Tests/RxSession.antt =====
-- A session of four blocks on hardware that starts, receives one block, and does not stop.
use soapy_sidekiq.Base.{◌≡◌, refl, true, false, [], ◌∷◌, arith, Outcome, ok, throw, foreign, some}
use soapy_sidekiq.Base.Int.{ℤ, pos, negsuc}
use soapy_sidekiq.RxQueue.{make, empty_queue, start, push_ticks, push_with_phase, enqueue}
use soapy_sidekiq.RxQueue.Blocks.{pending}
use soapy_sidekiq.RxSession.{
  RxReceiveResult, success, RxStreamBackend, RxSessionConfiguration, Session,
}
use soapy_sidekiq.RxSession.Lifecycle.{
  construct, empty_session, activate, deactivate, stop_outcome, owns_hardware_or_worker, started,
  cleared, owned, start_queue, store_running, create_thread, launched, opened, published,
}
use soapy_sidekiq.RxSession.ReceiveLoop.{
  worker_step, step_at, gate_step, receive_step, dispatch, receive_block, accept_block, pushed,
  count_discontinuity, is_expected,
}
use soapy_sidekiq.Timestamp.Rate.{convert}
use soapy_sidekiq.Timestamp.Product.{multiply_divide}
use soapy_sidekiq.RxSession.Steps.{
  unlocked, works, moves, begins, clears, owns, opens, starts, launches, Reach, here, next,
}
use soapy_sidekiq.RxSession.Steps.Activation.{Activates, activate_all_or_nothing}
use soapy_sidekiq.RxSession.Steps.Reachable.{IsSafe, reached-IsSafe}
use soapy_sidekiq.RxSession.Steps.Shutdown.{Deactivated, deactivate_ends}

abbrev enodev : ℤ
enodev = negsuc 18

abbrev backend : RxStreamBackend
backend = record { start_stream = λ h on_pps. ok (pos 0); stop_stream = λ h on_pps. ok (negsuc 4) }

abbrev configuration : RxSessionConfiguration
configuration = record {
  handle = 1;
  block_samples = 2;
  sample_rate = record { numerator = 3; denominator = 2 };
  system_timestamp_frequency = 40_000_000;
  use_rf_timestamp = true;
  on_pps = false;
}

abbrev result : Outcome RxReceiveResult
result = ok (record {
  status = success;
  handle = 1;
  samples = 1 ∷ 2 ∷ 3 ∷ 4 ∷ [];
  rf_timestamp = 10;
  system_timestamp = 20;
  error_code = pos 0;
})

abbrev fresh : Session
fresh = empty_session (empty_queue 4)

abbrev running : Session
running =
    create_thread configuration
      (store_running true (start_queue (owned (cleared configuration fresh))))

abbrev active : Session
active = (activate enodev backend true configuration fresh).1

active_queues :
    pending (worker_step result (worker_step result (worker_step result active))).queue.blocks
    ≡ 1 ∷ 2 ∷ 3 ∷ 4 ∷ []
unfolding activate started launched opened published start step_at gate_step receive_step dispatch
    receive_block accept_block pushed push_ticks push_with_phase enqueue convert multiply_divide
    count_discontinuity is_expected
active_queues = refl

-- The thread runs, and the backend throws: the worker is about to store `running_`.
abbrev broken : Session
broken =
    worker_step result
      (worker_step result (worker_step (throw foreign) (worker_step result running)))

reached :
    Reach enodev
      (record { session = fresh; phase = unlocked })
      (record { session = broken; phase = unlocked })
reached =
    next
      (next
        (next
          (next
            (next
              (next
                (next
                  (next
                    (next (next here (moves _ _ (begins backend configuration refl refl refl) refl))
                      (moves _ _ (clears configuration) refl))
                    (moves _ _ (owns configuration) refl))
                  (moves _ _ (opens configuration) refl))
                (moves _ _ (starts configuration) refl))
              (moves _ _ (launches configuration) refl))
            (works result refl))
          (works (throw foreign) refl))
        (works result refl))
      (works result refl)

constructs : construct 4 ≡ ok fresh
unfolding construct make
constructs = refl

reached-IsSafe_example : IsSafe (record { session = broken; phase = unlocked })
reached-IsSafe_example = reached-IsSafe enodev 4 fresh _ constructs reached

activate_all_or_nothing_example :
    Activates enodev backend false configuration fresh
      (activate enodev backend false configuration fresh)
activate_all_or_nothing_example = activate_all_or_nothing enodev backend false configuration fresh

owns_both : owns_hardware_or_worker active ≡ true
unfolding activate started launched opened published
owns_both = refl

deactivate_ends_example :
    (t : Session) × (deactivate enodev backend false
        (result ∷ throw foreign ∷ result ∷ result ∷ result ∷ [])
        active
      ≡ some (stop_outcome backend false active, t))
    × Deactivated enodev (stop_outcome backend false active) active t
deactivate_ends_example =
    deactivate_ends enodev backend false (result ∷ throw foreign ∷ result ∷ result ∷ result ∷ [])
      active owns_both (omega arith)
