-- ===== src/Examples.antt =====
-- A small server state, tests that run the functions on it, and the theorems at concrete inputs.
mod World
mod Files
mod Accounts
mod Messages
mod Requests
mod Catching
mod Threads
mod Boot
mod Mail
mod Told
mod Orphans
mod Late
mod HandOff
mod Part1
