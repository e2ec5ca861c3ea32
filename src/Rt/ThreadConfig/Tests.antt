-- ===== src/Rt/ThreadConfig/Tests.antt =====
-- Examples for the configuration of a thread.
use safeedge.Common.{◌≡◌, refl, true, false, pos}
use safeedge.Rt.ThreadConfig.{System, ThreadConfig, fifo, apply_thread_config}

-- A kernel that grants the scheduling and refuses to lock memory.
abbrev kernel : System
kernel = record {
  sched_other = 0;
  sched_fifo = 1;
  sched_rr = 2;
  setschedparam = λ _ _. true;
  getschedparam_succeeds = true;
  actual_policy = 1;
  actual_priority = pos 80;
  setaffinity = λ _. true;
  affinity_is = λ _. true;
  mlockall = false;
  page = pos 4096;
}

abbrev config : ThreadConfig
config = record {
  policy = fifo;
  priority = pos 80;
  cpu = pos 2;
  lock_memory = true;
  prefault_stack = true;
  prefault_bytes = 524288;
}

granted : (apply_thread_config kernel config).scheduling_applied ≡ true
unfolding apply_thread_config
granted = refl
