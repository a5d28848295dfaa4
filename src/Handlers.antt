-- ===== src/Handlers.antt =====
-- pkg/provider/handlers: the handlers of the provider's HTTP server, and the resolver of the proxy.
pub mod Namespaces
pub mod Requests
pub mod Answers
pub mod Deployment
