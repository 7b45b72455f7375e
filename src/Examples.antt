-- ===== src/Examples.antt =====
-- The theorems at concrete inputs, and tests of the definitions.
mod Limits
mod Polling
mod Reaping
mod Draining
mod Evicting
mod Starting
mod Ending
mod Whole
mod Controlling
mod Defaulting
mod Timing
mod Fairness
mod Logging
mod Failing
mod Labelling
