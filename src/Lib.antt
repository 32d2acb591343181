-- ===== src/Lib.antt =====
-- The C code of in-free-time: the dynamic preprocessor sources of Snort-POCAD
-- (Snort-POCAD/build/src/snort_dynamicsrc), which decode what a packet inspector meets: e-mail
-- attachments, folded headers, SSL records and sessions, the options and rule options of the SSL
-- preprocessor, its high availability, and a table of configurations by policy.
--
-- Files and what they model (paths below Snort-POCAD/build/src/snort_dynamicsrc):
--   Base, Base/...: shared names, tests, lists, bit operations, integers
--   Base64: sf_base64decode.c. Unfold: util_unfold.c. Quoted and Uu, Uu/Begin: sf_qpdecode and
--   sf_uudecode of sf_email_attach_decode.c
--   Email/State, Email/Detection: sf_email_attach_decode.h (SetEmailDecodeState, the reset
--   functions, getCodeDepth, updateMaxDepth, limitDetection, getDetectionSize)
--   Email/Admit, Email/Decoders, Email/Dispatch: Base64Decode, QPDecode, UUDecode, BitEncExtract and
--   EmailDecode, which call the decoders above on the buffers of the state
--   Ssl: the flags of ssl.h and the reads of a packet; Ssl/Handshake, Ssl/Records, Ssl/Version2,
--   Ssl/Decode: SSL_decode_handshake_v3, SSL_decode_v3, SSL_decode_v2 and SSL_decode of ssl.c
--   Policy: sfPolicyUserData.c and .h (create, set, get and clear); Policy/Iterate: the iterations, with
--   SSLFreeConfigPolicy of ssl_config.c
--   Ports: port tables (sfcommon.h, and their uses in ssl_config.c and ssl_inspect.c); Ports/Parse:
--   SFP_ports of sfparser.c
--   Rule: SSLPP_state_init and SSLPP_ver_init of ssl_config.c, SSLPP_rule_eval of ssl_inspect.c
--   Session: ssl_session.h and the state of ssl_inspect.c; Session/Hello: IsTlsClientHello,
--   IsTlsServerHello, IsSSL; Session/Handlers: SSL_UpdateCounts, SSLPP_is_encrypted and
--   SSLPP_process_alert, _hs, _app and _other; Session/Process: SSLPP_process, which decodes a packet
--   with Ssl and hands its flags to the handlers; Session/Events: packets one after the other, and
--   the interface Invariant between the proofs about handlers and those about such sequences
--   Settings: SSLPP_init_config, SSLPP_config and UpdatePathToDir of ssl_config.c
--   Ha: RegisterSSLHAFuncs, UnregisterSSLHAFuncs and the loop of SSLCleanHA of ssl_ha.c;
--   Ha/Messages: the messages, written and read; Ha/Files: Write
--   Examples: the theorems at concrete inputs
-- The other files hold lemmas and theorems on the module that they stand under.
--
-- How code becomes definitions: a buffer with its length is a list of bytes, with the output the
-- bytes stored so far; a pointer that may be null is an Option or a flag; a loop over a pointer is a
-- recursion over what the pointer has ahead. An int that may be negative is an integer, the counters
-- are natural numbers, with `% 2 ^ 32` written out where the code can wrap; sums of `int` values
-- that may overflow wrap around in two's complement. A read or a store outside the memory is a
-- fault: `fault`, `memory_fault`, or `none` of an Option. `size` of the SSL decoder is
-- the payload size of a packet, not negative; where the code makes it negative and leaves the loop,
-- the model leaves the loop too.
--
-- Fuel: sf_uudecode's loop has as many rounds as there are bytes, each of which moves the pointer;
-- the SSL loops have `size` rounds, and a round takes 2, 4 or 5 bytes at least. Out of fuel is a
-- fault too, so a theorem that there is no fault says that the fuel is enough. The records of
-- a high availability message are read with as much fuel as the message has bytes, of which each
-- record takes ten at least. The iteration over policies has a step for each policy and one more.
--
-- Parameters: `SnortStrnStr` of the host process is an argument `strn_str`, assumed to find a word
-- within the bytes that it searches; whether `calloc` succeeds is an argument. What the host process
-- answers to SSLPP_process is a record Host, with what it is asked to do kept in order in a World.
-- SnortStrtol is a field of an Environment, assumed to read a number below 2 ^ 31 as it is printed.
-- The functions that take part in high availability are a record Functions. strtok_r, strcasecmp and
-- strtol of the C library are modelled in Base/Strings and Base/Numerals, for the C locale and
-- a `long` of 64 bits.
--
-- Not modelled: SFP_snprintfa and all that prints; of ssl_config.c the checks of policies and the
-- reload functions, which go through the host process; of ssl_ha.c the reading of files, its
-- arguments, and its start and end; the default policy's accessors, and sfPolicyConfigDelete, which
-- only frees; the tables of function pointers; and the parts of the repository that are not C.
pub mod Base
pub mod Base64
pub mod Unfold
pub mod Quoted
pub mod Uu
pub mod Email
pub mod Ssl
pub mod Policy
pub mod Ports
pub mod Rule
pub mod Session
pub mod Settings
pub mod Ha
mod Examples
