-- ===== src/Lib.antt =====
-- Models of coap_core, a CoAP stack in Python (packets, retransmission, the pool of transactions),
-- and of share_drive, the file service on top of it.
--
-- A packet comes from the socket through CoapPacket.decode, passes verify_format and is answered
-- with a packet of CoapTemplates or DriveTemplates. What needs an answer is put into the
-- CoapTransactionPool, which sends it again (CoapTransaction.run_transaction) until its answer
-- arrives (finish_transaction) or its limits are reached; then the whole work, named by the pair of
-- address and token, counts as failed. Files travel in blocks: DriveUtilities.split_on_packets cuts
-- them from a file, and DriveAssembler.handle_packets puts them together at the other side and tells
-- the pool when the file is whole.
--
-- CoapWorkerPool stands between the socket and the rest: its filter decodes a datagram, acknowledges
-- it, ends a transaction or a transfer, or hands the packet to a CoapWorker, whose _solve_task calls a
-- handler of the resource: ServerResource at the server, ClientResource at the client. The server has
-- a pool for each address that it hears from; the client's commands go to its pool as internal tasks.
--
-- Which file models which part:
--   Base, Base/*                lists, options, dicts (Base.Dict, in order of insertion), exceptions
--                               as values (Base.Outcome), equality tests (Base.Eq)
--   Bytes, Bytes/*              int.to_bytes, int.from_bytes, int.bit_length, the UTF-8 codec
--   Config, Config/*            coap_core/coap_packet/coap_config.py: CoapType, CoapCodeFormat,
--                               CoapOptionDelta, CoapContentFormat, gen_token
--   Packet                      coap_core/coap_packet/coap_packet.py: CoapPacket and its accessors
--   Packet/Block                decode_option_block, encode_option_block
--   Packet/Options              _encode_option, _decode_option, one round of the loop of decode
--   Packet/Encode, Packet/Decode  encode and decode
--   Packet/Format               coap_config.py: verify_format
--   Templates, Drive/DriveTemplates  coap_core/coap_packet/coap_templates.py and
--                               share_drive/share_drive_helpers/drive_templates.py
--   Transaction                 coap_core/coap_transaction/coap_transaction.py and __init__.py, and
--                               reset and elapsed_time of coap_core/coap_utilities/coap_timer.py
--   Transaction/Backoff, Backoff/Silence
--                               the calls of run_transaction on one transaction
--   Transaction/Pool            coap_core/coap_transaction/coap_transaction_pool.py
--   Transaction/Pool/Acknowledgement, Failure, Refused
--                               answers, and what a failure leaves in the pool
--   Packet/Caching              what encode leaves in the packet
--   Worker                      coap_core/coap_worker/coap_worker.py: CoapWorker and a round of run
--   Worker/Task                 _solve_task
--   Worker/Task/Dispatch        the handler that a task gets to
--   Worker/Resources            coap_core/coap_resource: Resource and ResourceManager
--   Worker/Pool                 coap_core/coap_worker/coap_worker_pool.py: the choice and the removal
--                               of workers, _handle_internal_task
--   Worker/Pool/Filter          __coap_format_filter
--   Worker/Pool/Choice, Idle    the choice of a worker, the removal of idle ones
--   Worker/Pool/Transactions    __handle_transactions
--   Worker/Pool/Threads, Threads/Load, Threads/Once
--                               the threads of the pool as a step relation
--   Worker/Pool/Answers, Answers/Keys, Answers/Exchange, Reset
--                               acknowledgements and resets between two pools
--   Utilities/Logger            coap_core/coap_utilities/coap_logger.py
--   Utilities/Singleton         coap_core/coap_utilities/coap_singleton.py
--   Utilities/Timer             coap_core/coap_utilities/coap_timer.py
--   Drive/DriveUtilities        share_drive/share_drive_helpers/drive_utils.py: files and archives
--   Drive/Chunks                share_drive/share_drive_helpers/drive_utils.py: get_total_packets,
--                               split_on_packets
--   Drive/Assembler             share_drive/share_drive_helpers/drive_assembler.py: the state of
--                               DriveAssembler and the storing of a packet
--   Drive/Assembler/Handling    the whole of handle_packets
--   Drive/Assembler/Paths, Sorted  handle_paths, the lists of paths, the save path
--   Drive/Assembler/Storing, Arrival, Delivery, Complete, Whole, Transfer
--                               the packets of a file, one after the other
--   Drive/Splitter              share_drive/share_drive_helpers/drive_spliter.py:
--                               split_on_bytes_and_send
--   Drive/Splitter/Paths        split_on_paths_and_send, and drive_utils.py: split_on_paths
--   Drive/Splitter/Responses, Datagrams, Loop
--                               the responses as the receiver reads them, their bytes, the loop
--   Drive/ClientResource        share_drive/share_drive_client/client_resource.py
--   Drive/ClientResource/Served  the same as a worker calls it
--   Drive/ServerResource        share_drive/share_drive_server/server_resource.py, with the logger's
--                               wrapper around its handlers
--   Drive/ServerResource/Changes  its handle_post and handle_delete
--   Drive/ServerResource/Replies, Served
--                               the replies of its handlers, and a worker that calls them
--   Drive/Server                share_drive/share_drive_server/server.py: listen
--   Drive/Client                share_drive/share_drive_client/client.py: the commands
--   Drive/Client/Session        its client_cli
--   Drive/Client/Session/Requests, Tokens
--                               the tokens that a request and a session take
--   Drive/Download, Download/Sent, Arrivals, EndToEnd, Content
--                               a file from the sender's disk to the receiver's, in either direction
--   Drive/Download/Message, Request  a download from the client's request on
--   Drive/Upload/Message, Request    an upload from the client's request on
--   Drive/Fetch, Fetch/Responses, Loop, Collected, Message, Request
--                               the paths of the server, from the client's request to its lists
--   Tests/*                     the theorems at concrete inputs
--
-- How Python is read. A method that changes an object takes its state and returns the new one. An
-- exception is `err` with its kind. What `sendto` is called with is in the result, as a list of
-- datagrams. The clock is an argument: the readings of a call, in milliseconds. A difference of
-- times stops at 0 where the clock has gone back. A busy wait gets the lengths that other threads
-- bring about while it spins. Numbers are naturals; wrap-around is written out where the source has
-- it (`% 65536`, `& 0xFF`). A byte or a code point is a number.
--
-- Fuel. The option loop of decode runs on the number of bytes that are left, and each round takes one
-- byte at least. read_blocks runs on the length of the file, the UTF-8 decoder on the length of its
-- input, bit_length on the number itself. The search of handle_packets for the next missing packet
-- runs on a number above all keys of the dict.
--
-- Parameters. Python's json module is the record JsonCodec; what is relied on is LoadsDumps, that
-- `loads` undoes `dumps`, and Tests/Json has an instance. What os, shutil and zipfile do to the disk is
-- an argument: the record Os of Drive/ServerResource, the archive of a folder and what unpacking makes
-- in Drive/Splitter, Drive/Assembler and Drive/DriveUtilities, what os.walk yields in
-- Drive/Splitter/Paths. The handlers of a
-- resource are the fields of the record Resource, which Drive/ServerResource/Served fills. What the
-- user types is an argument of the client's commands.
--
-- Threads. The filter, the workers and the removal of idle workers interleave in Worker/Pool/Threads;
-- elsewhere a handler runs from its start to its end, and other threads appear in the lengths and the
-- pools that a busy wait finds, and in what is done `meanwhile` between the rounds of a session of the
-- client and of __handle_transactions.
--
-- Not modelled: sockets, processes and locks, the start and the end of threads, what the log lines
-- say, the questions to the user and KeyboardInterrupt. The disk is a dict from paths to contents on
-- which every path can be opened; the resource's directory exists, and paths are relative to it.
-- Of JSON only the objects from strings to strings are modelled, the only ones that the program writes;
-- any other JSON payload counts as one that cannot be read.
pub mod Base
pub mod Bytes
pub mod Config
pub mod Utilities
pub mod Packet
pub mod Templates
pub mod Transaction
pub mod Worker
pub mod Drive
pub mod Tests
