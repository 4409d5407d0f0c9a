-- ===== src/Tests.antt =====
-- Runs of the model on concrete tables, requests and calls.
mod Spine
mod Calls
mod Schedules
mod Requests
mod Chats
mod Completions
mod Turns
mod Streams
mod Administration
mod Upgrades
