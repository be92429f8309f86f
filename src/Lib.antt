-- ===== src/Lib.antt =====
-- Verification of btls, Rust bindings to BoringSSL, and of tokio-btls, its asynchronous streams.
--
-- The program. btls/src/ssl wraps BoringSSL's `SSL` object: a BIO (bio.rs) lets BoringSSL read and
-- write a Rust stream, and `SslStream` (mod.rs) calls BoringSSL and turns its results into
-- `io::Result`s. tokio-btls/src/lib.rs puts a `StreamWrapper` under that BIO: its `ReadBuffer` and
-- `WriteBuffer` hold ciphertext in both directions, so that one poll of the transport carries many
-- records, and `Packer` cuts a vectored write into records. A write seals plaintext either through
-- `SSL_seal_app_data` into the buffer or through one `SSL_write` per record, whose bytes come back
-- through the BIO into the same buffer. During a handshake BoringSSL calls C functions
-- (callbacks.rs) that run Rust closures; some of these wait for a future that the connection keeps
-- (async_callbacks.rs). connector.rs sets up client connections and decides which stored session one
-- of them may offer. A verification callback may verify the peer's chain as BoringSSL would
-- (verify_peer_cert_chain of mod.rs). hash.rs, symm.rs, aead.rs, base64.rs, stack.rs and
-- x509/extension.rs wrap objects of BoringSSL, and error.rs its queue of errors.
--
-- The files.
--   Prelude          helpers: tests on numbers, lists over the native numbers, machine integers
--   Io               the parts of std::io and std::task that the code uses
--   Bio              btls/src/ssl/bio.rs; Bio/Calls runs any sequence of callbacks
--   Ssl/Error        btls/src/ssl/error.rs, and `library_reason` of btls/src/error.rs
--   Ssl/Boring       the functions of BoringSSL that the code calls, and their documented laws
--   Ssl/Seal         `SealLimits`, `seal_app_data_limits`, `seal_app_data` of btls/src/ssl/mod.rs
--   Ssl/Stream       `SslStream` and `MidHandshakeSslStream::handshake` of btls/src/ssl/mod.rs
--   Tokio/...        tokio-btls/src/lib.rs: Limits (constants), Budget (`seal_budget`), Packer,
--                    Host (the transport and `Vec::reserve`), WriteBuffer, ReadBuffer, Wrapper
--                    (`StreamWrapper`), Write (`write_records` and what it calls), Poll (the
--                    `poll_*` functions)
--   Ssl/Ech          btls/src/ssl/ech_grease.rs
--   Ssl/Async        btls/src/ssl/async_callbacks.rs
--   Ssl/Callbacks    btls/src/ssl/callbacks.rs
--   Ssl/Connector    `ConnectConfiguration` and `ClientSession` of btls/src/ssl/connector.rs
--   Ssl/Verify       the verify stores, `set_ssl_context` and `verify_peer_cert_chain` of
--                    btls/src/ssl/mod.rs
--   Ssl/Quic         btls/src/ssl/quic.rs
--   Hash             `Hasher` of btls/src/hash.rs
--   Symm             `Crypter` and the functions on messages of btls/src/symm.rs
--   Stack            btls/src/stack.rs
--   Errors           btls/src/error.rs, and the packed codes of btls-sys/src/lib.rs
--   Aead             btls/src/aead.rs
--   Base64           btls/src/base64.rs
--   Extension        the builders of btls/src/x509/extension.rs
--   Tests            a transport and a connection that satisfy the laws, and runs on them
-- A child module holds proofs about its parent's definitions.
--
-- How it is modelled. A `&mut self` method is a function from the old state to the result and the new
-- state. BoringSSL and the transport are parameters: `Boring` and `Host` are records of functions,
-- `IsBoring` and `IsHost` their documented behaviour. A call of BoringSSL is a program (`Prog`) that
-- may call the BIO any number of times and branch on what the callbacks return. Five fields are ghosts:
-- `sealed` and `opened` name the plaintext that a connection has sealed and handed out, `wire` and
-- `got` the bytes that the transport has taken and given, `resumed` the session that BoringSSL was
-- given last. A panic is a value, and so is a write of BoringSSL past the buffer of a cipher. A future
-- is a function from the waker and the world to its output or to the future that waits; the wakers
-- and worlds of the calls that BoringSSL repeats are a list. The drop of a stack returns what it frees.
--
-- Bounds. `usize` is 64 bits wide. `SslStream::write` and `read_uninit` repeat a call as often as
-- BoringSSL asks, so they have fuel, `patience` in the callers, and `none` means that it ran out; the
-- theorems that a call returns assume only that those two come to an end. All other fuel is counted from
-- the input and is enough: the bytes that wait for `drain`, a round more than the bytes to
-- seal for `ssl_write_records`, the room in the buffer for `poll_read`, the bytes to seal for the
-- rule in the unit test of `seal_budget`, the elements of a stack and one more for its drop, the
-- errors on the queue and one more for `ErrorStack::get`.
--
-- Not modelled: BoringSSL and its patches; the wrappers that only pass arguments to BoringSSL, among
-- them the setters of contexts, the profiles of connectors and acceptors and the constructors of
-- ciphers; the registration of callbacks; the task context of the streams, which carries no data;
-- Debug, and Display but that of an error stack; the build script, tests and benchmarks.
pub mod Prelude
pub mod Io
pub mod Bio
pub mod Ssl
pub mod Tokio
pub mod Extension
pub mod Hash
pub mod Symm
pub mod Stack
pub mod Errors
pub mod Aead
pub mod Base64
pub mod Tests
