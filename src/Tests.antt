-- ===== src/Tests.antt =====
-- Runs of the modelled code on small inputs, and the theorems at concrete inputs.
mod RateLimiter
mod NonceCache
mod Commands
mod Files
mod Messages
mod Sessions
mod Service
mod Broker
mod Offers
mod Stun
mod Relay
mod P2p
mod Config
mod Keys
mod HolePunch
mod Setup
mod Keystore
mod Client
mod Installer
mod Control
mod Listing
