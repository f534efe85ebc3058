-- ===== src/Lib.antt =====
-- Verification of imapgw, an IMAP server in front of the AgentMail HTTP API.
--
-- A connection's bytes go through the parser (imapgw/parser.py), which frames lines and literals,
-- tokenizes them and yields commands. The session (imapgw/session.py) dispatches each command,
-- holds the selected view, and announces changes of the mailbox at safe points. Mailboxes
-- (imapgw/mailbox.py) are snapshots of the upstream listings; the UIDs of their items come from
-- the store (imapgw/uidstore.py), which keeps them in SQLite, and message bytes are kept in a
-- cache (imapgw/bytecache.py). Sequence sets (imapgw/fetch.py) name messages, and responses are
-- encoded by imapgw/responses.py.
--
-- Base has what the parts share: Boolean tests, equality as an interface, lists with native
-- lengths, dictionaries in insertion order, ASCII text, sorting and decimal numbers.
-- Parser models parser.py: Tokens and Lexer the tokenizer, Frames the class CommandParser; a
-- position in a line is the rest of the line, and the generator `events` is a run that lists its
-- events and says how it ended. Its proofs stand in Fuel, Rounds, Chunks, Bounds, Print,
-- Roundtrip and Cut.
-- UidStore models uidstore.py: Tables has the tables and the SQL statements, Calls the methods.
-- A transaction rolls back to the tables it began with; whether the statements and the watermark
-- file's reads and writes succeed is in the environment of a call. Its proofs stand in Valid,
-- Mailboxes, Allocation, Tombstones, Extends, History, Results, Vanish and Marks.
-- ByteCache models bytecache.py: Defs the class, Size, Reads and Lookups the proofs.
-- Fetch models fetch.py: Sequences the sequence sets, with proofs in Select, and Sections the
-- slicing of messages, with proofs in Slices.
-- Responses models responses.py: Encode the encoders on the bytes of the UTF-8 form, Lines the
-- proofs.
-- Mailbox models mailbox.py: Flags has items, snapshots and flags, Catalog the mailboxes, Listing
-- the label holds and the collection of messages, Sync the pins and `_do_sync`, as a function of
-- the state of the service, Changes `set_flag`, Content `raw_bytes` and `size_of`, with the proof
-- in Sizes, Trash `copy_to_trash` and `expunge_items`. Entries, Pins, Numbering and Snapshots
-- have the proofs.
-- Session models the class Selected and `flush_pending` of session.py: Selected the code, Client
-- a client that follows the responses, Filters, Views and Quiet the proofs. Dispatch has
-- `dispatch` and the credentials, for any registry of handlers, and Answers its proofs.
-- Session.Follows puts the store, the sync and the view together, Session.Copies `copy_to_trash`
-- and the views of the trash.
-- Search models search.py: Criteria and Keys what a key reads, Parse the class `_Parser`,
-- Evaluate `evaluate`; Handler models `_search` of commands.py. The proofs stand in Fuel, Meaning
-- and Hits.
-- ApiClient models apiclient.py: Requests the attempts of `_with_retries`, Budget its proof,
-- Paging `_paginate` with its proof.
-- Commands models handlers of commands.py: UidSets `_uid_set`, Reread that parse_sequence_set
-- reads its text back. Store and StoreCommand model `_store`, with proofs in Relabelled, Asked and
-- Stored; Wildcards models `_wildcard_match` on ASCII, with proofs in Globs, Collapse and
-- Matching, and List the handlers that use it.
-- Examples runs the models at concrete inputs.
--
-- Fuel: the tokenizer of a line runs on one more than the line's length, the loop of `events` on
-- one more than twice the buffered bytes and one for an awaited literal; both are shown to be
-- enough. The loops of the parser of search keys run on one more than their tokens; how deep its calls
-- may nest is a parameter, behind which RecursionError is raised. `_with_retries` runs on the attempts
-- that are allowed, `_paginate` on one more than the page tokens there are, and
-- `_wildcard_match` on a bound in the lengths of pattern and name. Numbers are natural numbers,
-- since the program's counters do not wrap around;
-- `int` raises ValueError of more than 4300 digits, and times of messages are whole seconds.
--
-- Not modelled: sockets, timeouts and signals (imapgw/server.py, imapgw/__main__.py and the read
-- loop of the session), opening and recovery of the database file, the HTTP transport and JSON of
-- imapgw/apiclient.py, message parsing by the standard library (imapgw/drafts.py, and in
-- imapgw/search.py the functions that are fields of the record Email), logging and configuration,
-- the grammar of FETCH attributes, append_draft, the collection of drafts and the sharing of
-- running syncs in imapgw/mailbox.py, the sync that `copy_to_trash` makes of a trash without a
-- snapshot, the other handlers of imapgw/commands.py, and how deep `evaluate` may nest on Python's stack.
pub mod Base
pub mod ByteCache
pub mod UidStore
pub mod Parser
pub mod Fetch
pub mod Mailbox
pub mod Session
pub mod Responses
pub mod Examples
pub mod Commands
pub mod ApiClient
pub mod Search
