-- ===== src/Tests.antt =====
-- Concrete servers and numbers, and runs of the model on them.
mod Numbers
mod Servers
mod Codes
mod Goroutines
mod Filters
mod Limits
mod Links
mod Requests
mod Streams
mod Clicks
mod Fleets
mod Web
mod Life
mod Restarts
mod Meters
mod Deletions
mod Races
