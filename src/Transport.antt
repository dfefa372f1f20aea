-- ===== src/Transport.antt =====
-- The HTTP transport of the API client, under frontend/packages/profile-ui/src: the cancellable
-- promise, the request line, the life of one request, and the abort signal that surrounds it.
pub mod Promise
pub mod Encode
pub mod Request
pub mod Headers
pub mod Bodies
pub mod Call
