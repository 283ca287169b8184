-- ===== src/Resource.antt =====
-- src/curl_resource.c: shared resources, reference counts and the requests that wait for them. The
-- check that a function runs on the loop's thread is left out: the calls of this model are those
-- that pass it. Callbacks are logged; they do not call back into the loop.
pub mod Refs
pub mod Lifecycle
pub mod Publish
pub mod Blocking
pub mod Inbox
pub mod Teardown
pub mod Balance
pub mod Conservation
pub mod Size
pub mod Ending
pub mod Untouched
pub mod Nodes
pub mod Safety
pub mod Total
pub mod Waits
pub mod Faults
mod Tests
pub mod Order
pub mod Waking
