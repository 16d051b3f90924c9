-- ===== src/RxSession/Steps/Safety/Owning.antt =====
-- The holder of the lifecycle mutex keeps the session sound.
use soapy_sidekiq.Base.{
  ◌⊎◌, arith, ◌≡◌, refl, inl, inr, Bool, true, false, Bool-cases, arith, Outcome, ok, throw,
}
use soapy_sidekiq.Base.Int.{ℤ}
use soapy_sidekiq.RxQueue.{Queue, start, stop, reset}
use soapy_sidekiq.RxQueue.Blocks.{IsValid}
use soapy_sidekiq.RxSession.{Session, Worker, absent, finished}
use soapy_sidekiq.RxSession.Lifecycle.{release_hardware, stops_hardware, join, stop_outcome}
use soapy_sidekiq.RxSession.Steps
use soapy_sidekiq.RxSession.Steps.Safety.{IsSound, agrees, agree}

start-IsValid : (q : Queue) → IsValid q → IsValid (start q)
unfolding start
start-IsValid q v = record {
  capacity_positive = v.capacity_positive;
  bounded = omega arith;
  blocks_valid = tt;
}

stop-IsValid : (q : Queue) → IsValid q → IsValid (stop q)
unfolding stop
stop-IsValid q v = record {
  capacity_positive = v.capacity_positive;
  bounded = v.bounded;
  blocks_valid = v.blocks_valid;
}

reset-IsValid : (q : Queue) → IsValid q → IsValid (reset q)
unfolding reset
reset-IsValid q v = record {
  capacity_positive = v.capacity_positive;
  bounded = omega arith;
  blocks_valid = tt;
}

release_hardware-queue :
    (enodev : ℤ) (o : Outcome ℤ) (s : Session) → (release_hardware enodev o s).queue ≡ s.queue
unfolding release_hardware
release_hardware-queue enodev (throw e) s = refl
release_hardware-queue enodev (ok status) s = elim (Bool-cases (stops_hardware enodev status)) [
  | inl t ↦ simp t refl
  | inr f ↦ simp f refl
]

-- A stop of the hardware at a phase in which the session does not run.
released :
    (p p' : Steps.Phase) (enodev : ℤ) (o : Outcome ℤ) (s : Session)
    → ((a : Bool) → agrees p s ≡ true → agrees p' (record s { active = a }) ≡ true)
    → IsSound p s
    → IsSound p' (release_hardware enodev o s)
unfolding release_hardware
released p p' enodev (throw e) s k v = record {
  queue_valid = v.queue_valid;
  agreement = k s.active v.agreement;
}
released p p' enodev (ok status) s k v = elim (Bool-cases (stops_hardware enodev status)) [
  | inl t ↦ simp t (record { queue_valid = v.queue_valid; agreement = k false v.agreement })
  | inr f ↦ simp f (record { queue_valid = v.queue_valid; agreement = k s.active v.agreement })
]

joined_agrees :
    (outcome : Outcome ℤ) (w : Worker) (s : Session)
    → (w ≡ finished) ⊎ (w ≡ absent)
    → agree (Steps.joining outcome) w s.running s.active s.failed s.queue.running s.queue.failed
      ≡ true
    → agree Steps.unlocked absent s.running s.active s.failed s.queue.running s.queue.failed ≡ true
joined_agrees outcome w s (inl e) v = ground (arith, rw e at v)
joined_agrees outcome w s (inr e) v = ground (arith, rw e at v)

-- Each step of the holder of the mutex.
pub Move-IsSound :
    (enodev : ℤ) (s s' : Session) (p p' : Steps.Phase)
    → Steps.Move enodev s p p' s'
    → IsSound p s
    → IsSound p' s'
unfolding start stop reset join
Move-IsSound enodev s _ _ _ (Steps.begins b c u f e) v = record {
  queue_valid = v.queue_valid;
  agreement = ground (arith, f, v.agreement);
}
Move-IsSound enodev s _ _ _ (Steps.clears c) v = record {
  queue_valid = v.queue_valid;
  agreement = ground (arith, v.agreement);
}
Move-IsSound enodev s _ _ _ (Steps.owns c) v = record {
  queue_valid = v.queue_valid;
  agreement = ground (arith, v.agreement);
}
Move-IsSound enodev s _ _ _ (Steps.opens c) v = record {
  queue_valid = unfold start in start-IsValid s.queue v.queue_valid;
  agreement = ground (arith, v.agreement);
}
Move-IsSound enodev s _ _ _ (Steps.starts c) v = record {
  queue_valid = v.queue_valid;
  agreement = ground (arith, v.agreement);
}
Move-IsSound enodev s _ _ _ (Steps.launches c) v = record {
  queue_valid = v.queue_valid;
  agreement = ground (arith, v.agreement);
}
Move-IsSound enodev s _ _ _ (Steps.fails c) v = record {
  queue_valid = v.queue_valid;
  agreement = ground (arith, v.agreement);
}
Move-IsSound enodev s _ _ _ (Steps.undoes c) v = record {
  queue_valid = v.queue_valid;
  agreement = ground (arith, v.agreement);
}
Move-IsSound enodev s _ _ _ (Steps.resets c) v = record {
  queue_valid = unfold reset in reset-IsValid s.queue v.queue_valid;
  agreement = ground (arith, v.agreement);
}
Move-IsSound enodev s _ _ _ (Steps.releases b c) v =
    released (Steps.releasing c) Steps.unlocked enodev (b.stop_stream c.handle false) s
      (λ a h. ground (arith, h)) v
Move-IsSound enodev s _ _ _ (Steps.deactivates on_pps o) v = record {
  queue_valid = v.queue_valid;
  agreement = ground (arith, v.agreement);
}
Move-IsSound enodev s _ _ _ (Steps.halts on_pps) v = record {
  queue_valid = v.queue_valid;
  agreement = ground (arith, v.agreement);
}
Move-IsSound enodev s _ _ _ (Steps.closes on_pps) v = record {
  queue_valid = unfold stop in stop-IsValid s.queue v.queue_valid;
  agreement = ground (arith, v.agreement);
}
Move-IsSound enodev s _ _ _ (Steps.stops b on_pps) v =
    released (Steps.stopping on_pps) (Steps.joining (stop_outcome b on_pps s)) enodev
      (stop_outcome b on_pps s) s (λ a h. ground (arith, h)) v
Move-IsSound enodev s _ _ _ (Steps.joins outcome w) v = record {
  queue_valid = v.queue_valid;
  agreement = joined_agrees outcome s.worker s w v.agreement;
}
