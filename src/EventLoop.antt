-- ===== src/EventLoop.antt =====
-- native/src/api.rs, `event_loop`: the task of a connected session. A round takes in the commands of
-- the channel, lets the budget release what it covers, sends it, and handles what has arrived.
-- Messages and Voice make of a command what goes out (Wire), with the voice gate of Vad. Incoming,
-- Handlers and Hearing are `handle_control_item` and `decode_to_client_buffer`. Execute runs the
-- commands that are ready, Round puts a round together. Pace, Ending, Order, Delivery and Rtt prove
-- what the loop keeps to; Asked joins it with the entry points of Requests.
pub mod Wire
pub mod Messages
pub mod Vad
pub mod Voice
pub mod Incoming
pub mod Handlers
pub mod Hearing
pub mod Execute
pub mod Round
pub mod Pace
pub mod Ending
pub mod Order
pub mod Delivery
pub mod Asked
pub mod Rtt
pub mod Samples
mod Tests
