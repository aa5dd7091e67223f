-- ===== src/Http.antt =====
-- http_api.py: `RemoteHTTPServer`, the HTTP control of the remote; its settings and token check, its
-- handlers, and what was proved of them.
pub mod Server
pub mod Handlers
pub mod Access
pub mod Replies
