-- ===== src/Lib.antt =====
-- The primary server of a secured DC microgrid. Secondary nodes connect over TCP, prove who they
-- are, and send sensor readings; the server stores the readings and hands out power setpoints.
--
-- Parts and files:
-- - Wire: what crosses the network. Wire/Socket is the receive loop of
--   smg_primary_server/rot_challenge_service.py and smg_primary_server/protocol.py over a connection
--   whose chunks, failures and closing are data; Wire/Frame the length-prefixed JSON of both files;
--   Wire/Tlv the records of smg_primary_server/auth_service.py; Wire/Hex and Wire/Endian the
--   encodings below them.
-- - Rot: `RotSession` of smg_primary_server/rot_challenge_service.py, a handshake with a device that
--   has a PUF-based key, and the loop that decrypts its data (Rot/Run). Rot/Agreement has the device
--   as smg_primary_server/tests/test_rot_challenge_protocol.py writes it.
-- - Crypto: smg_primary_server/crypto_utils.py, HMAC, HKDF and the AES-GCM envelopes.
-- - Session: `NodeSession` of smg_primary_server/auth_service.py. P2 is Session/Genesis, P3
--   Session/Establish, P4 Session/Exchange, P5 Session/Logout, the loop and `run` Session/Run. A
--   session stores readings in a DataStore and asks the coordinator for setpoints.
-- - Client: `SecureNodeClient` of smg_primary_server/pc_client.py, which starts P2 to P5, and its
--   `run_client` (Client/Run). Client/Genesis, Client/Establish, Client/Conversation and
--   Client/Totality put it and the session together, phase by phase; Client/Logout has the phase
--   where they do not fit.
-- - Registration: smg_primary_server/tools/register_puf_node.py, the registry that Rot looks into;
--   Registration/Handshake puts the two together.
-- - DataStore: smg_primary_server/data_store.py, the readings of all nodes.
-- - Ems: smg_primary_server/ems_coordinator.py, fuzzy inference of setpoints from the stored
--   readings and the trust in each node.
-- - Provision: smg_puf_rot_node/tools/provision_server_ref.py, the references that are pinned into a
--   device, and the server's loader of its identity.
-- - Primary: `SMGServer` of smg_primary_server/server.py, the state that its threads share. A session
--   reaches that state through `record` of the store only (Session/Records), so the threads are
--   steps in any order (Primary/Threads).
-- - Base and Numbers: Python's values, exceptions, dictionaries and floats.
--
-- Methods that mutate an object and may raise are functions from a state to a result and a state
-- (Base/Exec). A socket read loop has as many rounds as bytes are wanted, since each round receives
-- one at least; the data loops have one round more than bytes and events are still to come, since
-- each round that goes on uses one up. HKDF has as many rounds as bytes are wanted.
--
-- Parameters are what the code imports: SHA-256, AES-GCM, ECDSA, ECDH, the json module, the clock,
-- the random generator and the arithmetic of floats; their laws are named where they are needed.
-- The trust score is counted in hundredths. A session is modelled by itself: other sessions reach
-- it through the DataStore and the coordinator only, whose methods each hold a lock.
--
-- The client's own copies of the cryptographic helpers and of the framing are taken to be those of
-- Crypto and Wire. Its loop over setpoints has one round more than bytes and events are to come.
--
-- Not modelled: the listening, the start of the threads and the command lines of
-- smg_primary_server/server.py and smg_primary_server/puf_server.py, the paths and printing of the tools,
-- smg_primary_server/generate_methodology_csv.py, reading and writing of files, logging and timing,
-- and the firmware in C.
pub mod Base
pub mod Numbers
pub mod Wire
pub mod Rot
pub mod Crypto
pub mod DataStore
pub mod Ems
pub mod Session
pub mod Client
pub mod Registration
pub mod Primary
pub mod Provision
