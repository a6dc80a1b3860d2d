-- ===== src/SendQueue/Tests.antt =====
-- Checks of the queue at concrete inputs.
use zcash_faucet.Base.{◌≤◌, ◌≡◌, refl, true, none, some, List, [], ◌∷◌, count_if}
use zcash_faucet.SendQueue.{
  SerialQueue, new_queue, is_running, past_deadline, Event, runs, starts, expires, handle,
  handle_all, run, start_job, end_job, expire_job, settle_job, waiting, running,
}
use zcash_faucet.SendQueue.Serial.{in_order, unsettled, handle_all-serial}

-- Two calls; the first runs past its deadline, and the second tries to start behind it.
abbrev late : List Event
late = runs 60 ∷ runs 60 ∷ starts 0 ∷ expires 0 ∷ starts 1 ∷ []

abbrev late_queue : SerialQueue
late_queue = handle_all late (new_queue 2)

-- The first caller is told of the deadline, and the second task still waits.
late_jobs :
    late_queue.jobs
    ≡ record { deadline_ms = 60; phase = running; answer = some past_deadline }
      ∷ record { deadline_ms = 60; phase = waiting; answer = none }
      ∷ []
unfolding new_queue handle run start_job end_job expire_job settle_job
late_jobs = refl

handle_all-serial_example :
    (count_if is_running late_queue.jobs ≤ 1)
    × (in_order late_queue.jobs ≡ true)
    × (late_queue.pending ≡ unsettled late_queue.jobs)
    × (late_queue.pending ≤ 2)
handle_all-serial_example = handle_all-serial 2 late
