-- ===== src/LogInterval.antt =====
-- aos/common/util/log_interval.h: something that happens a lot is logged only now and then. The time
-- that the source asks the clock for is an argument; the count does not wrap, since its overflow is
-- undefined.
mod Spaced
mod Tests
use miranda_dashboard.Base.{ℕ, suc, ◌+◌, Bool, true, false, ◌&&◌, if◌then◌else◌, ltb, ◌==◌}
use miranda_dashboard.Time.{Time, time_zero, sub_time, ge_time}

pub record LogInterval : Type 0 where
  pub count : ℕ
  pub interval : Time
  pub last_done : Time

-- The constructor.
abbrev pub new_log_interval : Time → LogInterval
new_log_interval interval = record { count = 0; interval = interval; last_done = time_zero }

unfoldable pub want_to_log : LogInterval → Time → LogInterval
want_to_log l now = record {
  count = l.count + 1;
  interval = l.interval;
  last_done = if l.count == 0 then now else l.last_done;
}

-- The test of `ShouldLog`.
unfoldable pub is_due : LogInterval → Time → Bool
is_due l now = ge_time (sub_time now l.last_done) l.interval && ltb 0 l.count

unfoldable pub should_log : LogInterval → Time → Bool × LogInterval
unfolding is_due
should_log l now =
    let r = is_due l now in
    (
      r,
      record { count = l.count; interval = l.interval; last_done = if r then now else l.last_done },
    )

-- `Count`
unfoldable pub take_count : LogInterval → ℕ × LogInterval
take_count l = (l.count, record { count = 0; interval = l.interval; last_done = l.last_done })
