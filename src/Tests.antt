-- ===== src/Tests.antt =====
-- Runs of the definitions on small inputs, and each theorem at an input where its conditions hold.
mod Reading
mod Generating
mod Reporting
mod Parsing
mod Whole
