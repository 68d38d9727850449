-- ===== src/Lib.antt =====
-- RSDB: a client (crates/rsdb-cli) controls a daemon on a device (device/rsdbd) over TCP, in the
-- frames and messages of crates/rsdb-proto. A request is a JSON frame; the replies are JSON frames,
-- and the bytes of files go as stream frames with the request's id and a channel.
--
-- What models what:
--   Base       lists, bytes, results and the state-and-error monad `Exec` that handlers run in.
--   Proto      crates/rsdb-proto/src/lib.rs. Wire: constants, FrameKind, StreamChannel, FrameHeader
--              with encode and decode, ProtocolError. Frames: write_frame, read_frame,
--              write_stream_frame, read_stream_frame_into, the JSON frames and the discovery
--              messages. Messages: the control requests and responses. Header, RoundTrip,
--              StreamFrames, Writers, Failures and Json hold proofs.
--   Paths      join_transfer_relative_path, resolve_transfer_entry_path, ensure_unique_root_names
--              and path_to_transfer_string of device/rsdbd/src/main.rs, on the Unix paths of
--              Paths.Components. Contained, Landing and Roots hold proofs.
--   Shell      join_shell_command and shell_quote of device/rsdbd/src/main.rs, and in Shell.Words a
--              reader of command lines after the POSIX grammar, with assignments and reserved words.
--              Faithful holds the proof.
--   Daemon     device/rsdbd/src/main.rs. Error: error chains and their classification. Host: what is
--              used of the operating system. Fs: fs.stat, list, read, write, mkdir, rm and move
--              (Entries, Order, Inspect, Write, Tree), with the proofs in Guards, Atomic, Listing,
--              Depth and Reads. Transfer: the pushes (Chunks, Roots, Push) and the pulls (Manifest,
--              Stream, Pull, over the buffered writers of Buffer), with the proofs in Exact, Ends,
--              Delivery, Sums, Tally and Lost. Session: commands, shells and terminals (Pump is the
--              select! loop, Command, Shell, Input; Process is what is used of processes and
--              terminals), with the proofs in Ordered and Delivered over the view of Trace. Server:
--              handle_connection, handle_request and the answer to a discovery datagram, with the
--              proofs in Answered by the rules of Replies. Memory: a file system that satisfies
--              what Fs.Volume assumes.
--   Client     crates/rsdb-cli/src/main.rs. Registry: Registry, primary_target, normalize_registry, and
--              what connect_command and disconnect_command do to the registry, with the proofs in
--              Normal, Fixed, Connect and Disconnect. Operations: supported_agent_operations. Batch:
--              build_local_batch_manifest, filter_local_batch_manifest, receive_local_batch and the
--              exchange around them (Build, Manifest, Receive, Exchange), with the proofs in
--              Selection, Filtered, Agree and Alike, and, for whole transfers over a connection, in
--              Conversation: a push by Items, Kept, Placed, Replies, Pushing and Pushed, a pull by
--              Pulled, Mirrored, Streamed, Sent and Pulling. Single is a single push on the daemon.
--              Addresses: normalize_connect_addr, normalize_target_addr and names. Commands:
--              connect_command, disconnect_command and resolve_target over the stored registry,
--              with the proof in Connected. Failures: map_operation_error and what it calls, with
--              the proof in Retry. States: transfer_states_match and the states it compares.
--              Agent: the agent commands. Failure: what agents are told of. Remote: requests to the
--              device, with collect_remote_transfer_state; Local: collect_local_transfer_state.
--              Push, Verify and Pull: run_agent_transfer_push and run_agent_transfer_pull, with the
--              commands around them in Transfer. Input and
--              Fs: the file commands. Exec: run_agent_exec and run_agent_exec_stream. Staged states
--              what a staged push may do to the device; Quiet, Stays, Beside and Proceeds hold the
--              proof. Shown and Relayed hold the proof on the output of commands, over Session.
--              Requests: open_tcp_connection, request, ping_command and the other single requests,
--              and the device over TCP (tcp_remote) that Agent.Remote asks for. Completion:
--              complete_remote_edit_path, with the proof in Extends. ShellSession:
--              run_shell_session, with the proof in Typed, over Session.
--   Each Runs  concrete runs, and the theorems at concrete inputs.
--
-- How it is modelled. A byte is a number, a text its UTF-8 bytes. What has arrived on a connection
-- is a byte string, from which reads take; a read beyond its end is the end of the stream. A writer
-- is a parameter (AsyncWrite), and so are the file system (Host), hashing, base64, UTF-8
-- validation, the clock and process id behind names of temporary files, and serde_json (Serde).
-- What proofs need of them is in IsSerde and IsVolume; the latter says that files have one name
-- each and what the operations do to contents; a write that succeeds is in the file at once, while
-- tokio's File finishes and reports it at the next flush, so that a missing flush of a file would
-- not be seen. A buffered writer (BufWriter, with IsBufWriter, and with IsFlushing where it is
-- flushed), processes and terminals (Processes) and globbing are parameters too. What becomes ready
-- in a select! loop, and in which order, is a list of events: those before the deadline for a
-- command, so that the deadline falls between two rounds. A shell whose events end before its loop
-- does is still waiting. The message of an io::Error::other is left out. Tasks that panic or are
-- cancelled are not modelled.
--
-- Bounds and fuel. Lengths in a header are bounded by max_payload_len, 16 MiB, which decode and the
-- writers check; counts and sizes of 64 bits stay natural numbers, since a sum of sizes of files
-- that exist does not wrap. The loops that receive files have one unit of fuel for each byte that
-- arrives and one more: every round takes a frame of at least 24 bytes. A listing has one unit for
-- each level of directories, as a manifest has; with max_depth, one more than it is enough. The task
-- that reads a shell's input has one for each frame, and so ends when the input does.
--
-- Not modelled: the daemon's start-up, logging and platform detection; in the client, the parsing of
-- arguments, discovery over UDP, the edit command with its editor process, progress lines and what
-- is printed for people, which mostly do input and output, and the path functions that are those of
-- the daemon again.
pub mod Base
pub mod Proto
pub mod Paths
pub mod Shell
pub mod Client
pub mod Daemon
