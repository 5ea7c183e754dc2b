-- ===== src/Tests.antt =====
-- Runs of the models at fixed inputs, and every theorem of the header's list that has hypotheses at
-- an input where they hold.
mod Store
mod Values
mod Pages
mod Live
mod Events
mod Prefetch
mod Router
mod Transport
mod Protocol
mod Stream
