-- ===== src/Holiday/Rules/Weekdays.antt =====
-- The days that the rules name by their weekday.
use go_time_recording.Base.{ℕ, zero, suc, ◌+◌, ◌-◌, ◌*◌, ◌%◌, ◌≤◌, ◌<◌, ◌≡◌, arith}
use go_time_recording.Calendar.{Day, date, weekday}
use go_time_recording.Holiday.Rules.{
  seek_forward, weekday_from, seek_back, nth_weekday, last_weekday,
}

-- The days from a day to the next of a weekday.
abbrev gap : ℕ → Day → ℕ
gap w day = (w + 7 - (day + 1) % 7) % 7

seek_forward-weekday :
    (steps w : ℕ) (day : Day)
    → w < 7
    → gap w day ≤ steps
    → (weekday (seek_forward steps w day) ≡ w)
      × (day ≤ seek_forward steps w day)
      × (seek_forward steps w day ≤ day + steps)
unfolding seek_forward weekday
seek_forward-weekday zero w day hw h = omega arith
seek_forward-weekday (suc steps) w day hw h =
    ground (arith, seek_forward-weekday steps w (day + 1) hw)

-- `weekday_from` ends on the first such weekday from the day on.
pub weekday_from-weekday :
    (w : ℕ) (day : Day)
    → w < 7
    → (weekday (weekday_from w day) ≡ w)
      × (day ≤ weekday_from w day)
      × (weekday_from w day ≤ day + 6)
unfolding weekday_from
weekday_from-weekday w day h = seek_forward-weekday 6 w day h (omega arith)

abbrev gap_back : ℕ → Day → ℕ
gap_back w day = ((day + 1) % 7 + 7 - w) % 7

seek_back-weekday :
    (steps w : ℕ) (day : Day)
    → w < 7
    → steps ≤ day
    → gap_back w day ≤ steps
    → (weekday (seek_back steps w day) ≡ w)
      × (seek_back steps w day ≤ day)
      × (day ≤ seek_back steps w day + steps)
unfolding seek_back weekday
seek_back-weekday zero w day hw hd h = omega arith
seek_back-weekday (suc steps) w day hw hd h = ground (arith, seek_back-weekday steps w (day - 1) hw)

-- The nth weekday of a month is that weekday, and n - 1 of them come before it in the month.
pub nth_weekday-weekday :
    (n w month y : ℕ)
    → 1 ≤ n
    → w < 7
    → (weekday (nth_weekday n w month y) ≡ w)
      × (date y month 1 + 7 * (n - 1) ≤ nth_weekday n w month y)
      × (nth_weekday n w month y < date y month 1 + 7 * n)
unfolding nth_weekday weekday
nth_weekday-weekday n w month y hn hw = omega (arith, weekday_from-weekday w (date y month 1) hw)

-- The last weekday of a month lies in the month's last seven days.
pub last_weekday-weekday :
    (w month y : ℕ)
    → w < 7
    → 6 ≤ date y (month + 1) 0
    → (weekday (last_weekday w month y) ≡ w)
      × (last_weekday w month y ≤ date y (month + 1) 0)
      × (date y (month + 1) 0 < last_weekday w month y + 7)
unfolding last_weekday
last_weekday-weekday w month y hw h =
    omega (arith, seek_back-weekday 6 w (date y (month + 1) 0) hw h)
