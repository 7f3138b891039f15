-- ===== src/Lib.antt =====
-- QChat: a chat program whose users agree on keys by quantum protocols. Modelled are the protocols,
-- the messages and their way from host to host, and what the registry and the clients do with them.
--
-- The program. A host runs a `QChatConnection` (qchat/connection.py), which reads messages
-- (qchat/messages.py) off sockets into an inbound queue. The core hands messages on to a mailbox
-- (qchat/mailbox.py), to the user database (qchat/db.py), or to a running protocol
-- (qchat/protocols.py), which answers with control messages. The BB84 protocol turns the measured
-- bits of two parties into a key: it sifts them by their bases, estimates the error rate on a part
-- of them, reconciles the rest with the Golay code (qchat/ecc.py), and hashes them. A client
-- (qchat/client.py) leads such a protocol or follows it when a peer asks, stores the key, and encrypts
-- its chat with it (qchat/cryptobox.py); a server (qchat/server.py) keeps the public keys and places of
-- all users; a front end (qchat/rpc.py) calls the clients.
--
-- The files.
--   Prelude: Boolean tests on the native numbers, lists, results with exceptions, dicts.
--   Value: Python's values; Value/Utf8 and Value/Words: text and numbers as bytes.
--   Ecc: qchat/ecc.py. `get_syndrome` is `getSyndrome`, `e_vect` is `eVect`, `chunk`, `encode` and
--     `decode` are the methods of `ECC`, `golay_init` is the constructor of `ECC_Golay`. Ecc/Weight,
--     Ecc/Syndrome, Ecc/Init and Ecc/Table carry the proofs of Ecc/Correct: words, linearity, the
--     unrolled loops, and the table that they build.
--   Messages: qchat/messages.py. `init_message` is `Message.__init__`, `Kind` the classes,
--     `message_mapping` and `create_message` the factory.
--   Connection: qchat/connection.py. `handle_connection` is `_handle_connection` with the append to
--     the queue, `receive` its part up to the message.
--   Mailbox: qchat/mailbox.py.
--   Db: qchat/db.py; a method has the source's name with underscores. Db/Refinement: the calls that
--     change it, and a map from users to records, on which `abstract_update` says what each means.
--   Protocols: qchat/protocols.py, `QChatProtocol` and `QChatKeyProtocol`; Protocols/Bb84: the
--     methods of `BB84_Purified` that process the bits, `execute` in Protocols/Bb84/Execute;
--     Protocols/Factory: `ProtocolFactory`. A party's session holds the control messages
--     that are still to come, what it has sent, and the numbers that `random.randint` will return; a
--     theorem on two parties gives each the messages that the other one sends in the same run.
--     Protocols/Joint: runs of two parties in which each gets what the other one sends, and how such
--     runs are put after each other; Joint/Local: actions that take messages in order.
--     Protocols/Bb84/Execute: the loops of `execute`; Execute/Progress: the loop that collects bits;
--     Execute/Local, Close, Steps, Rounds, Agreement: the loops of both parties, over any
--     distillation;
--     Execute/Distilling, Execute/Devices: with the distillation, over any way to measure qubits;
--     Execute/Whole: with the qubits as the program asks for them and measures them.
--   Protocols/Diqkd: `DIQKD`. `epr_test` is `_device_independent_epr_test`; `test_sets` gives its sets
--     Tp, Tpp and R, `check_devices` its verdict. Diqkd/Sets, Diqkd/Runs, Diqkd/Agreement: both
--     parties' runs.
--     Diqkd/Execute: `distill_device_independent_data` over the devices, and `execute`.
--   Protocols/SuperDense: `SuperDenseCoding`; SuperDense/Bits: bytes as pairs of bits, and pairs of
--     bits in pairs of qubits; SuperDense/Runs, SuperDense/Agreement.
--   Device: qchat/device.py; Device/Outcomes: the methods of the protocols that use the devices;
--     Device/Runs: the loop that asks for qubits and measures them, by both parties.
--   Cryptobox: qchat/cryptobox.py, over the package's functions.
--   Core: qchat/core.py. `Node` is the state of a `QChatCore` with the fields of `QChatClient`; a
--     `Handler` runs on it and returns or raises, and keeps what it has changed. Core/Signature:
--     `_sign_message`, `_strip_signature`, `_verify_message`; Core/Users: `addUserInfo` and the
--     registration data; Core/Requests: `requestUserInfo`, `sendUserInfo`, `sendMessage`;
--     Core/Process: `process_message`. Core/Signed and Core/Delivery are about all of
--     these. Core/Startup: `__init__`, `_load_server_config`, `_register_with_root_server`.
--     Core/Threads: a `Host` is a node with the inbound queue of its connection and the threads that
--     have started; `read_from_connection`, `start_process_thread`, and `send_outbound_messages` of
--     qchat/client.py. Core/Threads/Runs and Core/Threads/Outbound are about these.
--   Server: qchat/server.py, `registerUser` and `_distribute_qubits`; Server/Registry,
--     Server/Registration.
--   Client: qchat/client.py; Client/Chat: chat messages and the history; Client/History,
--     Client/RoundTrip. Client/Keys: protocol objects for keys, made and run on the client's node;
--     Client/Keys/Runs: one client; Client/Keys/Agreement: two clients, from the request to the key
--     that both store; Client/Keys/Chat: and on to a chat message under that key.
--   Rpc: qchat/rpc.py, the server's two calls; Rpc/Cli: the command line client; Rpc/Loss.
--   The Tests modules run the definitions on concrete inputs, Core/Samples holds nodes for them.
--
-- Bounds. A socket is the list of the segments that arrive. The loop that reads the data of a
-- message has fuel, one more than the number of bytes to come; every pass reads a byte or ends,
-- which makes that enough. The loops of `execute` have fuel for their rounds, since how many they
-- need depends on what is measured. When each distillation gives a bit, the loop that collects the
-- 23 bits of a codeword needs 24 passes at most, a reconciliation then gives 23 bits, which are
-- enough for a byte of the key, and so 26 passes more than the key has bytes are enough. The thread
-- that sends the outbound queue needs one pass more than the queue is long. Every other loop is
-- structural. A numpy row is a list of numbers below the word size, which the code never exceeds;
-- floats occur in the error rate and the rates of the device test alone, which are kept as
-- fractions.
--
-- Outside the model, as parameters. The `json` module, with what a message needs of it as a
-- hypothesis. The cryptography package (`Crypto`), with key pairs that fit and a cipher that
-- decrypts what it encrypts as hypotheses. The CQC library (`Cqc`, and `EprSource` for a server),
-- with calls that return, and measurements that give the next number of the session, as a hypothesis
-- (`Works`); for superdense coding, its gates on the state of a pair of qubits (`Qubits`), with what
-- they do to the Bell states as a hypothesis (`BellLaws`). A pair that the receiver takes is the one
-- that the sender has worked on. The network and the other threads (`Environment`):
-- which hosts can be reached, and what the state is when a waiting handler goes on. The run of a
-- protocol object by a client (`Protocols`), which Client/Keys fills for the key protocols: there
-- the messages that come from the peer, the random numbers, the CQC library and the fuel are
-- parameters (`World`), and what a run has sent before it raises is not kept. Opening and
-- parsing a configuration file. The order in which Python goes through a set. A client that the RPC
-- server would make (`Outside`): the files and the new key.
--
-- Not modelled. Threads that interleave within a handler, and locks: a method under a lock is one
-- step, and the thread of a message runs in one step, but for the wait for a user. Sleeping and the
-- idle timeout: a party that waits with no message to come times out. The branch of
-- `_distribute_qubits` that no random number takes, the prompts of the command line client, log
-- output. A user's name that is not a text raises at once. In the test of the devices a peer's
-- lists hold numbers that are not negative. The key size of a protocol object that a
-- client makes is a natural number, and it makes no object of `SuperDenseCoding` there.
pub mod Prelude
pub mod Ecc
pub mod Value
pub mod Messages
pub mod Connection
pub mod Mailbox
pub mod Db
pub mod Protocols
pub mod Cryptobox
pub mod Core
pub mod Server
pub mod Client
pub mod Device
pub mod Rpc
