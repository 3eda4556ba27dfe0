-- ===== src/Lib.antt =====
-- smb-browser, a browser for SMB shares: the messages of its own SMB2 client, and its queue of
-- operations.
--
-- The program is a Qt application (src/ui, src/app) over application services (src/application),
-- core types (src/core) and back ends (src/infrastructure). One back end speaks SMB2 and SMB3 itself
-- (src/native_smb): sessions, file readers and writers, directory listers and watchers exchange
-- messages with the server over a Direct TCP transport. All of these build their requests and decode
-- the responses with src/native_smb/Protocol.cpp, which takes bytes that a server chose. This
-- development models that file with its header, src/native_smb/Protocol.h, and on top of it the
-- exchangers, the operators and the session, src/native_smb/NativeSmbSession.cpp. The services run their work
-- in threads through src/application/OperationQueue.cpp, which is modelled too, with the errors of
-- src/core/Error.h that it stores.
--
--   Base              names of the libraries, Boolean tests on native numbers, lemmas on lists
--   Wire              little-endian integers (appendU16Le ... readU64Le), DecodeResult, FileId,
--                     exceptions of the builders; Wire/Reads, Wire/Words, Wire/Behind: lemmas
--   Protocol/Command  the command numbers of Protocol.h
--   Protocol/Status   NTSTATUS values, errorCodeForNtStatus, ntStatusName, failure messages
--   Protocol/Header   encodeSmb2SyncHeader, decodeSmb2SyncHeader, and the checks with which every
--                     response decoder begins (command, server-to-redirector flag, status, size)
--   Protocol/Utf16    encodeUtf16Le, decodeUtf16Le, appendUtf8CodePoint
--   Protocol/Tree     TREE_CONNECT, TREE_DISCONNECT, LOGOFF
--   Protocol/File     CREATE, CLOSE
--   Protocol/Transfer READ, WRITE, the credit charge
--   Protocol/Buffers  the part of a response that the fixed part announces by offset and length
--   Protocol/Ioctl    IOCTL, server-side copy, the reparse buffer of a symbolic link
--   Protocol/Info     SET_INFO, QUERY_INFO, basic, standard, rename, link, disposition information
--   Protocol/Session  NEGOTIATE with its contexts, SESSION_SETUP
--   Protocol/Chain    the loop over entries that are chained by offsets
--   Protocol/Directory, Protocol/Notify, Protocol/Ea
--                     QUERY_DIRECTORY, CHANGE_NOTIFY, extended attributes: users of that loop
--   Protocol/Frame    the Direct TCP frame
--   Protocol/Examples concrete messages on which the results are applied
--   Client            what a conversation asks of the transport and the caller; exchangePayload
--   Client/Traces     plans, and what it means that a conversation obeys one
--   Client/Runs       a conversation run against a transport, and what a plan says of the run
--   Client/Safety     the rules by which the conversations are checked
--   Client/Exchangers ReadExchanger and the other exchangers, TreeConnector; its Connects: the exceptions
--   Client/Operators  FileReader, FileWriter, DirectoryWatcher, DirectoryLister,
--                     RemoteObjectOperator, RemoteStatReader, RemoteMetadataOperator
--   Session           NativeSmbSession: ids, files, objects, metadata
--   Session/Wildcard  wildcardMatches;  Session/Delete  deleteTree, deleteWildcard
--   Session/Copy      copyFileServerSide;  Session/Fresh  where the message ids are left
--   Dfs               the DFS referral request, its decoder and getDfsReferrals
--   Errors            ErrorCode, AppError, fromCode, defaultUserMessage
--   Queue             m_operations, cancel, setState, setProgress, enqueue
--   Queue/Worker      the worker that enqueue starts, as a step relation with all other threads
--   Queue/Examples    concrete runs
--
-- A function of the source has its name in snake case (decodeReadResponse is decode_read_response).
-- A byte vector, and a std::string, is a list of numbers; the pair of a pointer and a size is the list
-- of the bytes it covers, so the tests for a null pointer have no counterpart. A builder gives `built`
-- bytes or, for an exception, `invalid`. A decoder gives `success`, `failure` with the code and the
-- message of the source, or `fault`: a read or a copy outside the buffer, which C++ leaves undefined.
-- A number that is stored is cut to its field by `% 256`; the sums that the source takes in 32 bits
-- wrap (`% 4294967296`), those it takes in std::size_t are taken without bound, which is the same for
-- operands of 32 bits and buffers in memory.
--
-- The one loop that is not over a list, `chained`, runs on fuel, and running out of it is a `fault`
-- too. The decoders give it the length of the part to be walked; each round moves on by a byte at
-- least, so that is enough. QUERY_DIRECTORY and CHANGE_NOTIFY are looked at for messages below 4 GiB:
-- a Direct TCP frame is below 16 MiB.
--
-- A function that talks to the server is a tree, a `Client`: it ends, sends a frame and goes on for each
-- answer of `Transport::exchange`, asks whether the caller cancels and goes on for either reply, or
-- calls the progress callback. So the transport, the server behind it and the other threads are
-- parameters. `Ending` is what a function returns or throws; `thrown` passes every caller. The
-- session's state, m_nextMessageId with its wrap-around at 2 ^ 64, is passed from one operation to the
-- next in a `Reply`. Bodies that several functions of the source repeat (SET_INFO between CREATE and
-- CLOSE, the same with QUERY_INFO) are one definition here, with what differs as arguments; the session's
-- operations have names of their own (deleteObject of the session is delete_one).
--
-- A plan is a list of commands, some repeated any number of times. `Obeys t s Q n plan c` says: for
-- every answer and every cancellation `c` sends frames that carry the commands of the plan, the message
-- ids from n on without a gap, the tree t and the session s, and `Q` holds of the next id, the rest of
-- the plan and the result when it ends. An answer is an error or a frame below 4 GiB. `Leaves Next Bad`
-- is such a `Q`: no fault; after a success the plan is empty and the session's next id is the one behind
-- the last that was sent; after an error `Bad`.
--
-- The loop of the lister has no bound of its own: a server may send pages for ever. It runs for a
-- given number of rounds and is `unfinished` when they are used up; so does deleteTree, for a depth
-- of directories. The loop of the copy gets as many rounds as the file has bytes, that of
-- wildcardMatches a number that the lengths give, and both are enough. std::tolower, which follows
-- the locale, is taken in the locale "C".
--
-- A worker of the queue is a state machine: it waits, looks at its token, sets the state to
-- Running, is inside the callback, decides by the result and the token, and leaves. Each call that
-- takes the mutex is one step, and between any two steps other threads may cancel any operation and
-- change the others, and the destructor may cancel all of them. A run is any number of such steps.
-- An id is a number, and the entries are never removed.
--
-- In the statements `byte_of`, `u16_of`, `u32_of`, `u64_of` and `buffer_of` are what stands in a
-- buffer at an offset. `Ensures P r` says that `r` is not a fault, and that `P` holds of its value if
-- it is a success. `IsResponse`, `HasFixedPart` and `IsSuccess` say of the bytes what the checks of a
-- response look for.
--
-- Not modelled: capabilityMask and containsSmb1Dialect of Protocol.cpp, listShares of the session,
-- the signals, the snapshots and the thread pool of the queue, its destructor's wait, a callback
-- that throws, and the rest of the program: the sockets of the transport, connecting and
-- negotiating, signing, encryption, NTLM, SPNEGO and DCE/RPC of src/native_smb, the other back
-- ends, the services, the storage and the user interface. An operator's time limits are the
-- transport's.
pub mod Base
pub mod Wire
pub mod Protocol
pub mod Errors
pub mod Queue
pub mod Client
pub mod Session
pub mod Dfs
