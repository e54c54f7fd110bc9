-- ===== src/Lib.antt =====
-- The matching and settlement core of the inference bazaar: an order book, an epoch matcher that
-- replays a set of signed orders through it, the consensus of operators on the result, and the
-- service that pools orders and co-signs batches; and the channel by which credits are spent.
--
-- Base: shared types, machine integers (Base.Int: i64 as the integers with the wrap written out),
--   sorted and duplicate-free lists (Base.Sets), maps as association lists (Base.Maps), texts.
-- OrderBook: crates/orderbook/src. `types.rs` is OrderBook.Types; `native.rs` is OrderBook.Native
--   (the sides of the book: `validate`, `insert`, `remove`) and OrderBook.Engine (`place`, `cancel`,
--   `snapshot`). The others hold proofs: Sorted, Side, Invariant, LoopKeeps and Keeps for
--   well-formedness, Loop for termination, Reference and Prints for what is traded, Admission and
--   Cancel for the replies.
-- Settlement: crates/settlement-core/src/lib.rs (Settlement.Types, Settlement.Core) and
--   crates/settlement/src/lib.rs (Settlement.Fills): digests, signatures, the rules of a fill,
--   batches and quorums. Signing is about signatures; Toy is a concrete instance of the cryptography.
-- Matcher: crates/matcher/src/lib.rs (Matcher.Epoch: `match_epoch`) and consensus.rs
--   (Matcher.Consensus). Sorting, Canonical and SetDeterminism are about the match of a set;
--   Election, Quorum and Verdicts about the consensus.
-- Clob: operator/src/clob. Types is mod.rs and wire.rs, Pool and Pending are pool.rs, Peer is
--   peer.rs; Steps lists the calls that change the state and their runs. Entries, Admits and Keeps
--   are about well-formedness, Settled and Finality about settlement, Excluded and Held about
--   pending orders, Cancels about cancels, Attests about co-signatures. Driver and Watcher are driver.rs: the
--   proposer (`propose_instrument`) and the epoch and settlement ticks (`drive_epoch`,
--   `reconcile_pending`); Warrants, Drives, Landed, Submitted and Watched are about them. Toy is a
--   small node.
-- Spend: operator/src/spend.rs. Types holds the digests, the journal and the requests, Serve the gate
--   `authorize`, the buffered `complete` and `ack`; Channel and Serving hold their proofs.
-- Venue: operator/src/market.rs and venue.rs. Types is the state; Signed the signed orders and the
--   join of prints (`place_signed`), Rfq and Quote the firm quotes (`rfq_quote`, `rfq_fill`), Outbox
--   the flush and the budgets; Listing the markets and legacy orders, Making the ladder (`mm_tick`);
--   Steps lists the calls and their runs. Pricing, Crossing, Flushing, Quoting, Laddering, Ticks and
--   Pulling are about one call each; Books, Placing and Ticking about well-formed books. Toy is a
--   small venue.
-- Redeem: operator/src/redeem.rs, the serving of redemptions: Vetting (the checks against the chain)
--   and Quota (the count and the used authorizations).
-- Credits: operator/src/credits.rs, the selection of spendable lots.
--
-- How they interact: `match_epoch` sorts the valid orders of a set by price and digest and places
-- them one by one on a new book; its prints are joined to the signed orders. A proposer broadcasts
-- the set with the hash of the fills; a peer's `attest` checks the proposal against its pool by
-- `verify_proposal`, which matches the set again, and signs the batch digest; the signatures are
-- put together by `aggregate_attestation` as the contract wants them, which `verify_quorum` states.
--
-- What stands for what: a struct is a record, an enum a data type; a call that changes state
-- returns the new state; a panic is a result of its own (`panic`, or `none` for `match_epoch`).
-- The third-party functions (keccak, EIP-712 and ABI encodings, ECDSA, hex) are the parameter
-- `Crypto`. Hash maps are association lists without two entries of a key. i64 and u64 arithmetic
-- wraps as in a release build. The loop of `place` runs on fuel, two more than the makers, and
-- OrderBook.Loop is about its end. The sidecar's prices are doubles, as fractions (Venue.Types.F64),
-- and its sizes and its ladder arrive rounded. The clock is an argument, read once in each call.
--
-- Not modelled: HTTP, gossip, RPC and the event loops of the operator; the parts of the operator
-- beside these (of the spend rail registration, settlement and streaming; of redemptions the pump's
-- submissions; of the venue the floating-point quoting, which gives quotes and ladders as
-- parameters); proof guests; the contracts and the web packages, which are in other languages.
pub mod Base
pub mod Clob
pub mod Credits
pub mod Matcher
pub mod OrderBook
pub mod Redeem
pub mod Settlement
pub mod Spend
pub mod Venue
