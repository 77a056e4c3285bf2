-- ===== src/Lib.antt =====
-- MILE explorer: an indexer that copies the blocks of the MILE blockchain into a RethinkDB database,
-- and a backend that answers JSON-RPC requests from that database.
--
-- The parts and how they interact. The indexer fetches blocks and puts them into a queue table
-- (`Db::add_block`). A thread moves them from there to the table of blocks in the order of their ids
-- (`Db::blocks_processing`), and queues two jobs for the transactions of each: one adds them to the
-- wallets, the other makes the rows that wait for a serial number. Another thread numbers those rows
-- (`Db::transactions_processing`). The backend reads an HTTP request (`request::handle`), parses its
-- body (`context::from_string`), finds the method in its router (`RpcBase::apply`) and prints the
-- context that the method has filled (`context::to_json`); the methods read their parameters
-- (`api::params`) and ask the database (the getters of `Db`).
--
-- The files:
--   Common: exceptions as values, a state that stays written when an exception is thrown (Exec), and
--     `std::to_string`, `std::stoull` and `std::stoi` (Text), floating-point numbers as an interface
--     (Float).
--   Json: nlohmann::json as an interface; Json.Value is a value of it, for tests and witnesses.
--   Driver: the RethinkDB driver, the MILE SDK and the nodes of the chain as interfaces.
--   Rpc.Message, Rpc.Message.Serialize: backend/jsonrpc/message.hpp.
--   Rpc.Context: backend/jsonrpc/context.hpp and context.cpp.
--   Rpc.Container, Rpc.Router: backend/jsonrpc/router.hpp, backend/api/registry.hpp, regestry.cpp.
--   Rpc.Request: backend/jsonrpc/request.hpp. Rpc.Session: backend/jsonrpc/http/session.cpp and
--     backend/jsonrpc/https/session.cpp; an exception that leaves a callback ends the process.
--     Rpc.Server: backend/jsonrpc/server.cpp and the listeners beside the sessions.
--   Api.Params: backend/api/params.hpp. Api.Methods, Api.Transaction, Api.Statistics: the methods in
--     backend/api. Api.Registration: their registrations and the router of backend/main.cpp.
--   Db: the handle of common/include/db.hpp. Db.Name: common/src/names.cpp. Db.Cursor:
--     common/src/db/cursor.cpp. Db.Table: common/src/db/table.cpp. Db.Getters:
--     common/src/db/getters.cpp. Db.Init, Db.Version: common/src/db/db.cpp, and
--     common/src/db/migration.cpp.
--   Db.Transactions, Db.Wallets, Db.Jobs: common/src/db/transactions/transactions.cpp and
--     common/src/db/blocks/wallets_state.cpp. Db.Blocks: common/src/db/blocks/blocks.cpp and
--     processing.cpp. Db.Stream: common/src/db/transactions/processing.cpp; Db.Stream.Tables: what it
--     relies on of the server. Db.Network: common/src/db/network.cpp.
--   Genesis: common/src/genesis.cpp. Fetcher, Fetcher.States, Fetcher.Genesis:
--     common/src/fetcher.cpp.
--   Indexer.Intervals: interval_map of indexer/statistics/utils.hpp, at times that are not negative.
--     Indexer.Assets: enumerate_assets of the same file. Indexer.Turnover, Indexer.Weeks:
--     indexer/statistics/turnover_24.cpp and turnover_trx.cpp. Indexer.WalletsTop:
--     wallets_top_upd.cpp. Db.Statistics: the registry of common/include/statistics.hpp and the loop
--     over it in common/src/db/db.cpp. Indexer.Statistics: the registrations.
--   Fetcher.Nodes: get_rpc of common/src/utils.cpp, and Fetcher::Connect. Main: the configuration of
--     common/include/config.hpp and the command lines. Main.Indexer: indexer/main.cpp. Main.Backend:
--     backend/main.cpp.
--   The modules Laws, Coverage, Answers, Parsing, RoundTrip, Pages, Ids, Rows, Total, Numbered,
--   Writes, Serials, Items, Passes, Rounds, Days, Keeps and Start hold what is proved of the module
--   they stand under or beside, and Tests the runs at concrete data.
--
-- State. A method works on its context and the world, which is all that lies outside the program;
-- the processing of blocks on the world and the jobs that wait; the processing of transactions on
-- the world, the block before and the serial count. A 64-bit number wraps round where it is written
-- `% 2 ^ 64`. An endless loop is one round of it, between two sleeps, and `transactions_rounds`
-- is any number of rounds. The loops that ask for the state of a wallet, for a block and for the
-- genesis run on fuel, one unit for each request. For the first two, as many units as there are
-- requests up to the first answer are enough; the third may go on for ever, and is taken at every
-- fuel.
--
-- A text is a `std::string`: each of its characters stands for one byte. Printing a document throws
-- where a text in it is no UTF-8; a document that is written into a table is taken to be printable.
--
-- Not modelled: logging, timing and sleeps; indexer/statistics/wallets_top.cpp, which is not
-- registered. Threads interleave between rounds and jobs; a round is one step. Reading a missing key
-- of a const JSON document is undefined behaviour, and throws here.
pub mod Common
pub mod Json
pub mod Driver
pub mod Db
pub mod Genesis
pub mod Fetcher
pub mod Indexer
pub mod Rpc
pub mod Api
pub mod Main
pub mod Tests
