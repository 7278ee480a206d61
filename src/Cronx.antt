-- ===== src/Cronx.antt =====
-- internal/cronx: schedules. Wall is the wall clock and the search of a cron expression in it; Zone the
-- instants of a matched minute in a time zone, and the next occurrence; Between the occurrences of a window.
pub mod Wall
pub mod Render
pub mod Zone
pub mod Between
mod Examples
