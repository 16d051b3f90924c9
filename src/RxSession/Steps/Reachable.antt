-- ===== src/RxSession/Steps/Reachable.antt =====
-- The invariant of the interleavings.
use soapy_sidekiq.Base.{
  ℕ, ◌≡◌, refl, Bool, true, not, ◌&&◌, ◌||◌, arith, inl, inr, Bool-cases, ◌==◌, ◌<◌, ok, Option,
  none, some,
}
use soapy_sidekiq.Base.Int.{ℤ}
use soapy_sidekiq.Base.Words.{IsU64}
use soapy_sidekiq.RxQueue.Blocks.{IsValid}
use soapy_sidekiq.RxQueue.{Queue, make, empty_queue}
use soapy_sidekiq.RxQueue.History.{interfere-IsValid}
use soapy_sidekiq.RxQueue.Reading.{takes, interfere, remaining, copy_blocks, Copy}
use soapy_sidekiq.RxSession.{Session, is_working, joinable}
use soapy_sidekiq.RxSession.Lifecycle.{empty_session, construct}
use soapy_sidekiq.RxSession.Steps.{
  System, Phase, unlocked, Step, works, read, moves, Reach, here, next,
}
use soapy_sidekiq.RxSession.Steps.Safety.{
  IsSound, is_halting, is_closing, activates, is_cleared, lacks_thread, is_still, may_accept,
}
use soapy_sidekiq.RxSession.Steps.Safety.Working.{step_at-IsSound}
use soapy_sidekiq.RxSession.Steps.Safety.Owning.{Move-IsSound}

-- What holds between any two steps.
pub record IsSafe (t : System) : Type 0 where
  pub queue_valid : IsValid t.session.queue
  -- A session that runs owns the hardware, its queue accepts blocks and shows no failure, and a worker is in its
  -- loop, or `activate` has its thread still to create or failed to.
  pub owns_hardware : (not t.session.running || t.session.active) ≡ true
  pub accepts : (not t.session.running || t.session.queue.running) ≡ true
  pub shows_none : (not t.session.running || not t.session.queue.failed) ≡ true
  pub has_worker :
      (not t.session.running || is_working t.session.worker || lacks_thread t.phase) ≡ true
  -- A queue that accepts blocks while the session does not run is about to be closed, or just opened.
  pub accepts_only :
      (not t.session.queue.running
        || t.session.running
        || may_accept t.phase
        || is_closing t.session.worker)
      ≡ true
  -- A failed session does not run, but for the worker's next store; its queue shows the failure, but for the
  -- worker's next two; and a queue shows only the failure of this run, or of the last one until it starts.
  pub failed_stopped :
      (not t.session.failed || not t.session.running || is_halting t.session.worker) ≡ true
  pub failed_shown :
      (not t.session.failed
        || t.session.queue.failed
        || is_halting t.session.worker
        || is_closing t.session.worker)
      ≡ true
  pub shown_failed : (not t.session.queue.failed || t.session.failed || is_cleared t.phase) ≡ true
  -- Before `activate` stores `running_`, after it undid that, and from the first store of `deactivate` to its
  -- end the session does not run; and while `activate` is at work there is no worker.
  pub stopping : (not (is_still t.phase) || not t.session.running) ≡ true
  pub no_worker : (not (activates t.phase) || not (joinable t.session.worker)) ≡ true

remaining-flags :
    (q : Queue) (c : Option Copy)
    → ((remaining q c).running ≡ q.running) × ((remaining q c).failed ≡ q.failed)
remaining-flags q none = (refl, refl)
remaining-flags q (some c) = (refl, refl)

read-IsSound :
    (p : Phase) (n : ℕ) (s : Session)
    → IsU64 n
    → IsSound p s
    → IsSound p (record s { queue = interfere (takes n) s.queue })
unfolding interfere
read-IsSound p n s h v = record {
  queue_valid = unfold interfere in interfere-IsValid (takes n) s.queue h v.queue_valid;
  agreement =
      rw
        (
          (remaining-flags s.queue (copy_blocks n s.queue.blocks)).0,
          (remaining-flags s.queue (copy_blocks n s.queue.blocks)).1,
        )
        v.agreement;
}

Step-IsSound :
    (enodev : ℤ) (t u : System)
    → Step enodev t u
    → IsSound t.phase t.session
    → IsSound u.phase u.session
Step-IsSound enodev t u (works result e) v =
    rw e (step_at-IsSound t.phase result t.session t.session.worker refl v)
Step-IsSound enodev t u (read n h e) v = rw e (read-IsSound t.phase n t.session h v)
Step-IsSound enodev t u (moves p s m e) v = rw e (Move-IsSound enodev t.session s t.phase p m v)

Reach-IsSound :
    (enodev : ℤ) (t u : System)
    → Reach enodev t u
    → IsSound t.phase t.session
    → IsSound u.phase u.session
Reach-IsSound enodev t _ here v = v
Reach-IsSound enodev t u (next {u = w} r s) v =
    Step-IsSound enodev w u s (Reach-IsSound enodev t w r v)

-- The clauses of an agreement.
parts :
    (a b c d e f g h i j k l : Bool)
    → (a && b && c && d && e && f && g && h && i && j && k && l) ≡ true
    → (a ≡ true) × (b ≡ true) × (c ≡ true) × (d ≡ true) × (e ≡ true) × (f ≡ true) × (g ≡ true)
parts a b c d e f g h i j k l v = (
  ground (arith, v),
  ground (arith, v),
  ground (arith, v),
  ground (arith, v),
  ground (arith, v),
  ground (arith, v),
  ground (arith, v),
)

running_parts :
    (r a q s w l : Bool)
    → (not r || (a && q && not s && (w || l))) ≡ true
    → ((not r || a) ≡ true)
      × ((not r || q) ≡ true)
      × ((not r || not s) ≡ true)
      × ((not r || w || l) ≡ true)
running_parts r a q s w l v =
    (ground (arith, v), ground (arith, v), ground (arith, v), ground (arith, v))

IsSound-IsSafe : (t : System) → IsSound t.phase t.session → IsSafe t
IsSound-IsSafe t v = of_parts (parts _ _ _ _ _ _ _ _ _ _ _ _ v.agreement)
  where
    s : Session
    s = t.session

    of_parts :
        ((not s.running
              || (s.active
                  && s.queue.running
                  && not s.queue.failed
                  && (is_working s.worker || lacks_thread t.phase)))
            ≡ true)
          × ((not s.queue.running || s.running || may_accept t.phase || is_closing s.worker) ≡ true)
          × ((not s.failed || s.queue.failed || is_halting s.worker || is_closing s.worker) ≡ true)
          × ((not s.queue.failed || s.failed || is_cleared t.phase) ≡ true)
          × ((not s.failed || not s.running || is_halting s.worker) ≡ true)
          × ((not (is_still t.phase) || not s.running) ≡ true)
          × ((not (activates t.phase) || not (joinable s.worker)) ≡ true)
        → IsSafe t
    of_parts (a, b, c, d, e, f, g) = of_running (running_parts _ _ _ _ _ _ a)
      where
        of_running :
            ((not s.running || s.active) ≡ true)
              × ((not s.running || s.queue.running) ≡ true)
              × ((not s.running || not s.queue.failed) ≡ true)
              × ((not s.running || is_working s.worker || lacks_thread t.phase) ≡ true)
            → IsSafe t
        of_running (h, i, j, k) = record {
          queue_valid = v.queue_valid;
          owns_hardware = h;
          accepts = i;
          shows_none = j;
          has_worker = k;
          accepts_only = b;
          failed_stopped = e;
          failed_shown = c;
          shown_failed = d;
          stopping = f;
          no_worker = g;
        }

constructed :
    (capacity : ℕ) (s : Session)
    → construct capacity ≡ ok s
    → (0 < capacity) × (construct capacity ≡ ok (empty_session (empty_queue capacity)))
unfolding construct make
constructed capacity s e = elim (Bool-cases (capacity == 0)) [
  | inl empty ↦ cc (rw empty at e)
  | inr positive ↦ (ground arith, rw positive refl)
]

constructed-IsSound : (capacity : ℕ) (s : Session) → construct capacity ≡ ok s → IsSound unlocked s
constructed-IsSound capacity s e = rw same (record {
  queue_valid = record {
    capacity_positive = (constructed capacity s e).0;
    bounded = omega arith;
    blocks_valid = tt;
  };
  agreement = refl;
})
  where
    same : s ≡ empty_session (empty_queue capacity)
    same = cc ((constructed capacity s e).1, e)

-- From the constructor on, whatever steps of the worker, of readers and of the holders of the lifecycle
-- mutex follow, store by store and in any order, and whatever the backend returns or throws: the queue is well
-- formed; a session that runs owns the hardware, its queue accepts blocks and shows no failure, and it has a
-- worker in its loop, but for the two steps of `activate` around the creation of the thread. A session that does
-- not run has a closed queue, a failed one does not run, and session and queue agree on the failure, each but
-- for the steps between two stores, by name. And the session does not run from the first store of `deactivate`
-- to its end, nor has it a worker while `activate` is at work.
pub reached-IsSafe :
    (enodev : ℤ) (capacity : ℕ) (s : Session) (u : System)
    → construct capacity ≡ ok s
    → Reach enodev (record { session = s; phase = unlocked }) u
    → IsSafe u
reached-IsSafe enodev capacity s u e r =
    IsSound-IsSafe u (Reach-IsSound enodev _ u r (constructed-IsSound capacity s e))
