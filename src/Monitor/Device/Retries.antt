-- ===== src/Monitor/Device/Retries.antt =====
-- The retries of a failed SMART read: `schedule_after_read_failure` of src/monitor/mod.rs.
use nvme_disk_mon.Common.{
  ℕ, zero, suc, ◌+◌, ◌*◌, ◌^◌, ◌≤◌, ◌<◌, ◌≡◌, refl, some, List, [], ◌∷◌, arith,
}
use nvme_disk_mon.Common.Int.{ℤ, pos, ◌+ℤ◌, i64_end, checked_i64-pos, i64_of_ℕ-some}
use nvme_disk_mon.Monitor.Schedule.{utc_minute_nearest_window}
use nvme_disk_mon.Monitor.Device.{
  SmartMonitorDevice, set_due, schedule_retry, retry_delay_ms, max_smart_read_retries,
  schedule_after_read_failure,
}

-- The device after a failed read at each of the times.
unfoldable pub after_failures : SmartMonitorDevice → List ℤ → SmartMonitorDevice
after_failures d [] = d
after_failures d (now ∷ times) =
    let (failed, _) = schedule_after_read_failure d now in after_failures failed times

-- A failed read leaves at most three failures counted, whatever stood there.
pub schedule_after_read_failure-read_failures :
    (d : SmartMonitorDevice) (now : ℤ)
    → (after_failures d (now ∷ [])).read_failures ≤ max_smart_read_retries
unfolding after_failures schedule_after_read_failure set_due schedule_retry
schedule_after_read_failure-read_failures d now = ground arith

-- One failed read after n < 3 of them.
retried :
    (d : SmartMonitorDevice) (now : ℕ) (n : ℕ)
    → d.read_failures ≡ n
    → n < 3
    → now + 4_000 < i64_end
    → (schedule_after_read_failure d (pos now)).0
      ≡ record d { next_due_timestamp = pos (now + 1_000 * 2 ^ n); read_failures = n + 1 }
unfolding schedule_after_read_failure set_due schedule_retry retry_delay_ms ◌+ℤ◌
retried d now zero e h1 h2 = ground (arith, e, checked_i64-pos (now + 1_000), i64_of_ℕ-some 1_000)
retried d now (suc zero) e h1 h2 =
    ground (arith, e, checked_i64-pos (now + 2_000), i64_of_ℕ-some 2_000)
retried d now (suc (suc zero)) e h1 h2 =
    ground (arith, e, checked_i64-pos (now + 4_000), i64_of_ℕ-some 4_000)
retried d now (suc (suc (suc n))) e h1 h2 = ground arith

-- From no failures, at times below the end of i64 by at least four seconds: the first three failed
-- reads are repeated after one, two and four seconds, and after the fourth nothing is counted and the
-- next sample is due at the end of a whole window, if that is a time at all.
exhausted :
    (d : SmartMonitorDevice) (now : ℕ) (due : ℤ)
    → d.read_failures ≡ 3
    → utc_minute_nearest_window (pos now) d.expected_span_ms ≡ some due
    → (schedule_after_read_failure d (pos now)).0
      ≡ record d { next_due_timestamp = due; read_failures = 0 }
unfolding schedule_after_read_failure set_due
exhausted d now due e w = ground (arith, e, w)

-- From no failures, at times at least four seconds below the end of i64: the first three failed reads
-- are repeated after one, two and four seconds, and the fourth counts from zero again and is due where
-- a whole window ends, if that is a time at all.
pub after_failures-next_due_timestamp :
    (d : SmartMonitorDevice) (first second third fourth : ℕ) (due : ℤ)
    → d.read_failures ≡ 0
    → first + 4_000 < i64_end
    → second + 4_000 < i64_end
    → third + 4_000 < i64_end
    → utc_minute_nearest_window (pos fourth) d.expected_span_ms ≡ some due
    → (after_failures d (pos first ∷ [])
        ≡ record d { next_due_timestamp = pos (first + 1_000); read_failures = 1 })
      × (after_failures d (pos first ∷ pos second ∷ [])
          ≡ record d { next_due_timestamp = pos (second + 2_000); read_failures = 2 })
      × (after_failures d (pos first ∷ pos second ∷ pos third ∷ [])
          ≡ record d { next_due_timestamp = pos (third + 4_000); read_failures = 3 })
      × (after_failures d (pos first ∷ pos second ∷ pos third ∷ pos fourth ∷ [])
          ≡ record d { next_due_timestamp = due; read_failures = 0 })
unfolding after_failures
after_failures-next_due_timestamp d first second third fourth due e h1 h2 h3 w = ground (
  arith,
  retried d first 0 e,
  retried (failed first 1_000 1) second 1 refl,
  retried (failed second 2_000 2) third 2 refl,
  exhausted (failed third 4_000 3) fourth due refl w,
)
  where
    failed : ℕ → ℕ → ℕ → SmartMonitorDevice
    failed now delay n = record d { next_due_timestamp = pos (now + delay); read_failures = n }
