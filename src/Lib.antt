-- ===== src/Lib.antt =====
-- HomeLink, a daemon that gives remote access to a computer through a Telegram relay or directly.
--
-- A message comes in through a transport. The Telegram transport takes updates of one chat, lets
-- through what the shared limiter allows, and passes on the commands of the chat and the signed
-- messages of approved peers. The broker gives a message to the handlers of its type, and the
-- daemon's handlers look at the role of the sender before they run a command, change a file or
-- hand an offer to the file receiver. Replies go back through the broker.
--
-- The parts, the file of each, and the code that it models:
--   RateLimiter   homelink/core/rate_limiter.py: RateLimiter and the shared limiters
--   NonceCache    homelink/crypto/nonce_cache.py: NonceCache
--   Signing       homelink/crypto/signing.py: sign_message, verify_signature, _canonical_bytes
--   Session       homelink/crypto/session.py: SessionCipher, encrypt_private_key, decrypt_private_key
--   Passwords     homelink/crypto/kdf.py: validate_password_strength, derive_session_keys
--   Telegram      homelink/transport/telegram/transport.py: _handle_update, _handle_approve;
--                 Sending is start and send, Polling is _poll_loop
--   P2p           homelink/transport/p2p/transport.py: sessions, packets, heartbeat, connection
--   HolePunch     homelink/transport/p2p/hole_punch.py: punch with its two loops
--   Stun          homelink/transport/p2p/stun.py: _parse_response, get_public_endpoint
--   Broker        homelink/core/broker.py: send with its choice of a transport, on, dispatch
--   Config        homelink/config/manager.py: the configuration; Store is its files
--   Keys          homelink/crypto/keys.py: key pairs and identities
--   Devices       homelink/core/device.py and the devices of homelink/config/manager.py, with
--                 from_public_dict of homelink/crypto/keys.py; Files is devices.json as a file,
--                 Loading is DeviceManager.load
--   Setup         init.py: what main writes
--   Installer     homelink/service/installer.py: the unit file, install, remove
--   Listing       homelink/service/daemon.py: _list_path, _build_tree
--   Keystore      homelink/service/keystore.py, and the password in homelink/service/run.py
--   Client        homelink/cli/client.py: send_request, download_file
--   Control       homelink/cli/ctl.py: the target of a command; exec, rm, mkdir, pair
--   Daemon        homelink/service/daemon.py: the handlers and the roles; Daemon/Offers is the
--                 handler of offers
--   Commands      homelink/commands: Shlex is shlex.split of the standard library, Validators and
--                 Permissions are permissions.py, Executor is executor.py
--   Files         homelink/files: Protocol is protocol.py; SafeDest, Transfer and Send are
--                 transfer.py, over the file system of Disk
--   Common        the helpers: Python's dict, exceptions, texts, paths and JSON values
--   Tests         runs on small inputs
--
-- The children of a part hold its laws. A method is a function that takes the state and returns
-- the new one beside its result; its name is the method's, and the steps of a long method are
-- functions of their own, in the order of its code. An exception is a value of Result, and the
-- state beside it is the one that it leaves behind. A lock makes a call atomic, and a coroutine is
-- taken as one step: where it waits for others, in the polls of Send, what it sees is an argument.
-- Replies, messages and changes of the file system are recorded in order in an outbox, in the
-- effects of Telegram, in the actions of the daemon and in the attempts of the broker.
--
-- Numbers of JSON are integers; clocks count milliseconds, so that the floats of the timestamps
-- and of the rate limiter are whole numbers. Lengths and counters are natural numbers; the 32-bit
-- counter of the cipher keeps its bound, and the bytes of integers are written out. The loop over
-- the attributes of a STUN message runs on fuel, one unit for a byte of the message, which is
-- enough since every step drops at least four bytes; the tree of a directory is built on the
-- number of levels that are left. All other loops are structural.
--
-- Parameters stand for code outside of the repository: SHA-256, HMAC, Ed25519, ChaCha20-Poly1305,
-- Argon2id, HKDF, Base64, UTF-8, json.loads, the upper and lower case and the classes of Unicode,
-- Path.resolve, and the processes and errors of the operating system. Logging is left out.
--
-- Not modelled: the sockets and HTTP calls of the transports, whose answers are arguments; the
-- status handler and the wiring of the daemon's start; main.py of the command line, and what
-- ctl.py prints of lists, tables and trees; the questions of the setup script. They are input and
-- output around the parts above.
pub mod Common
pub mod Config
pub mod Control
pub mod RateLimiter
pub mod NonceCache
pub mod Commands
pub mod Files
pub mod Signing
pub mod Telegram
pub mod Session
pub mod Devices
pub mod Daemon
pub mod Broker
pub mod Client
pub mod HolePunch
pub mod Installer
pub mod Keystore
pub mod Listing
pub mod Keys
pub mod P2p
pub mod Passwords
pub mod Stun
pub mod Setup
pub mod Tests
