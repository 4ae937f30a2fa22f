-- ===== src/Tests.antt =====
-- Inputs and runs of the model: arithmetic for `double`, small requests and configurations, and
-- applications of the theorems to them.
mod Values
mod JsonValues
mod Caching
mod Tracing
mod Limits
mod Access
mod Spending
mod Routing
mod Handling
mod Outages
mod Sessions
mod Sending
mod Serving
mod Threading
mod Starting
