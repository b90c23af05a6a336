-- ===== src/Tests.antt =====
-- The theorems at concrete inputs, one module per part of the program.
mod Domain
mod Transfer
mod Files
mod Work
mod Messages
mod Store
mod Folders
mod Tokens
