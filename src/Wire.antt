-- ===== src/Wire.antt =====
-- What goes over the wire: JSON values and their text, and the messages to clients.
pub mod Json
pub mod Message
