-- ===== src/Rt/ThreadConfig/Report.antt =====
-- What the report of a thread's configuration is worth.
use safeedge.Common.{◌≡◌, arith, true, false, ◌&&◌}
use safeedge.Rt.ThreadConfig.{
  System, ThreadConfig, is_default, to_posix_policy, fully_applied, apply_thread_config,
}

-- The report says that everything was applied exactly when each of its four flags does: no failure
-- goes without a diagnostic, and no diagnostic without a failure.
pub fully_applied-apply_thread_config :
    (os : System) (c : ThreadConfig)
    → let r = apply_thread_config os c in
      fully_applied r
      ≡ r.scheduling_applied && r.affinity_applied && r.memory_locked && r.stack_prefaulted
unfolding apply_thread_config fully_applied
fully_applied-apply_thread_config os c = ground arith

-- If a policy other than the default one is reported as applied, and it could be read back, then it
-- is the policy in force, and it is reported as such.
pub apply_thread_config-policy :
    (os : System) (c : ThreadConfig)
    → os.getschedparam_succeeds ≡ true
    → is_default c.policy ≡ false
    → (apply_thread_config os c).scheduling_applied ≡ true
    → (os.actual_policy ≡ to_posix_policy os c.policy)
      × ((apply_thread_config os c).effective_policy ≡ os.actual_policy)
unfolding apply_thread_config
apply_thread_config-policy os c g d a = ground arith
