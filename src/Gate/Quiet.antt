-- ===== src/Gate/Quiet.antt =====
-- autonomy/gate.py: `_is_quiet_hours`.
use cogito_agent.Prelude.{
  ℕ, ◌+◌, ◌-◌, ◌/◌, ◌%◌, ◌<◌, ◌≡◌, String, Bool, true, false, ◌&&◌, ◌||◌, Option, none, some, arith,
  leb, ◌=s◌, if◌then◌else◌,
}
use cogito_agent.Sql.{find}
use cogito_agent.Gate.{Config, GateDb, WorkspaceSettings, get_default}

-- The minute of the day of a time in seconds: `strftime("%H:%M")`.
abbrev pub minute_of_day : ℕ → ℕ
minute_of_day now = now / 60 % 1440

-- The comparison of the texts HH:MM, as minutes of the day.
unfoldable pub in_window : ℕ → ℕ → ℕ → Bool
in_window start end current =
    if leb start end
    then leb start current && leb current end
    else leb start current || leb current end

abbrev pub window_test : Option ℕ → Option ℕ → ℕ → Bool
window_test none e current = false
window_test (some s) none current = false
window_test (some s) (some e) current = in_window s e current

-- "22:00" and "08:00"
abbrev pub default_quiet_start : ℕ
default_quiet_start = 1320

abbrev pub default_quiet_end : ℕ
default_quiet_end = 480

abbrev settings_of : String → WorkspaceSettings → Bool
settings_of w s = s.workspace_id =s w

abbrev by_settings : Option WorkspaceSettings → ℕ → Bool
by_settings none current = false
by_settings (some s) current = window_test s.quiet_hours_start s.quiet_hours_end current

-- `_is_quiet_hours`; `none` is the empty configuration, which is false in Python.
unfoldable pub is_quiet_hours : GateDb → String → ℕ → Option Config → Bool
is_quiet_hours db w now none = by_settings (find (settings_of w) db.settings) (minute_of_day now)
is_quiet_hours db w now (some c) =
    if get_default c.quiet_hours_enabled true
    then window_test (get_default c.quiet_hours_start (some default_quiet_start))
        (get_default c.quiet_hours_end (some default_quiet_end)) (minute_of_day now)
    else false

-- The window is a stretch of the clock face: a minute lies in it exactly when it is at most as far
-- after the start as the end is, going round midnight where the end comes before the start.
pub in_window_clock :
    (start end current : ℕ)
    → start < 1440
    → end < 1440
    → current < 1440
    → in_window start end current
      ≡ leb ((current + 1440 - start) % 1440) ((end + 1440 - start) % 1440)
unfolding in_window
in_window_clock start end current a b c = ground arith
