-- ===== src/HttpServer.antt =====
-- packages/http-server/src: who may call, and how a browser's session travels. Headers, names and
-- paths are texts.
pub mod Cookies
pub mod Redirects
pub mod Auth
pub mod Sessions
