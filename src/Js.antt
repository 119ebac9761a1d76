-- ===== src/Js.antt =====
-- The part of JavaScript that the program rests on: dynamic values, exceptions, and asynchronous
-- functions as actions on a state.
pub mod Value
pub mod Exn
pub mod Action
pub mod Yields
pub mod Keeps
pub mod Refines
pub mod Text
