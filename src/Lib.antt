-- ===== src/Lib.antt =====
-- Verification library of iguanatrader, an automated trader with a human in the loop.
--
-- The program. A strategy proposes a trade. The risk context evaluates the proposal against seven
-- caps and a kill-switch, and tells the trading context whether it may go on; the approval context
-- asks a human on a channel and tells the trading context what was decided. The two contexts keep
-- their state in tables and talk to trading over an in-process bus. The trading context keeps the
-- ledger: it executes an approved proposal at the broker, reconciles the broker's fills, and
-- closes trades on request; sweeps over open trades ratchet their stops and request closes, and a
-- daemon drains proposals and reconciles positions. A replay context rolls past proposals forward
-- under exit policies. This library models the risk, the approval and the trading context, the
-- Donchian strategy, the sweeps, the bus and the replay simulator, over explicit stores: a store
-- is a record of tables, an operation takes it and returns it with a reply, and an exception is a
-- reply.
--
-- Which file models what; paths are under apps/api/src/iguanatrader.
--  * Common: names and lemmas that the modules share.
--  * Decimal: Python's decimal numbers as a record of operations, whose laws are those of the order
--    alone; Decimal/Fixed is a fixed-point instance that the tests run on.
--  * Risk/Models: contexts/risk/models.py. Risk/Protections: contexts/risk/protections/*.py, each
--    module's `evaluate` under its own name. Risk/Engine: contexts/risk/engine.py.
--  * Risk/Trailing: contexts/risk/stop_management.py. `none` is a decimal division by zero.
--  * Risk/KillSwitch: the switch tables of contexts/risk/orm.py, their repository methods and the
--    two transitions of contexts/risk/service.py.
--  * Risk/State: `load_risk_state` of contexts/risk/repository.py with its queries.
--  * Risk/Service, Risk/Override, Risk/Bridge: contexts/risk/service.py.
--  * Approval/Store: contexts/approval/repository.py over contexts/approval/models.py.
--    `insert_decision` is the repository's `record_decision`.
--  * Approval/Service, Approval/Bridge: contexts/approval/service.py with the events of
--    contexts/approval/events.py.
--  * Approval/Commands: contexts/approval/channels/command_handler.py with channels/types.py.
--  * Trading/Models: contexts/trading/models.py, ports.py and events.py. `Desk` is the ledger.
--  * Trading/Repository: contexts/trading/repository.py.
--  * Trading/Propose, Trading/Execute, Trading/Reconcile, Trading/Close: the handlers of
--    contexts/trading/service.py, what they share in Trading/Service, the wait for the live gateway
--    in Trading/Gateway. `execute_on_approval` is `execute_on_approval_handler`.
--  * Trading/Daemon: contexts/trading/daemon_lifecycle.py.
--  * Trading/Desk: any sequence of these calls on one ledger; no code of its own.
--  * Strategies/Sizing, Strategies/Donchian: sizing.py, donchian_atr.py, the wrapper of base.py and the
--    range of _indicators.py, all in contexts/trading/strategies.
--  * Sweeps/Trailing: contexts/risk/trailing_stop_sweep.py with trailing_stop_repository.py.
--    Sweeps/Stops: contexts/risk/stop_hit_sweep.py.
--  * Shared/Bus: shared/messagebus.py. A step of a worker carries the outcome of its handler.
--  * Replay/Simulator: contexts/replay/pnl_simulator.py over contexts/replay/models.py.
--  * The modules below a component hold its theorems; Tests and Examples modules run the code.
--
-- Conventions. A UUID is a number, drawn from a counter of the store; a timestamp is a number of
-- microseconds since the epoch, and `now` is the time that a call reads; logs are newest first.
-- Loops are structural recursion over lists. The one loop that waits, for the live gateway, runs on
-- fuel: a round for each unit of the wait and one more, which suffices as each round ends later than
-- the one before. Parameters, for what is not of this repository or is read from outside: the decimal
-- arithmetic with its rounding, uuid5 and the printing of a UUID, pydantic's rendering of a state
-- (`dump`), the caps (read from the environment by `load_caps`), the answers of the broker, the market
-- data and the entry gate, and, in the risk context, the rows of the tables that the trading context
-- owns.
--
-- Not modelled: logging, the HTTP and command-line layers, SQL itself (a query is a filter of a
-- list, narrowed to the tenant as the persistence listener does; the trading ledger is that of one
-- tenant), commits and flushes of the trading session, handlers that run while another one waits
-- for the broker, the channels' transports, brokers, market data, the other strategies, research,
-- and the web frontend.
pub mod Approval
pub mod Common
pub mod Decimal
pub mod Replay
pub mod Risk
pub mod Shared
pub mod Strategies
pub mod Sweeps
pub mod Trading
