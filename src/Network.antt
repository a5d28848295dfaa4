-- ===== src/Network.antt =====
-- pkg/network and pkg/api/network: the controllers that map a service to the addresses of its
-- machines, and the interface under which the machine store uses one.
pub mod Balancer
pub mod Controller
pub mod Api
pub mod Directory
pub mod Caddy
pub mod Manager
