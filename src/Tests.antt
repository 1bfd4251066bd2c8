-- ===== src/Tests.antt =====
-- The theorems at concrete inputs, over a platform that runs, and tests of the model.
mod Sample
mod Cells
mod Queries
mod Changing
mod Node
mod Whole
mod Clouds
mod Coarse
