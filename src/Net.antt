-- ===== src/Net.antt =====
-- src/net.cpp: how a session's bytes become commands, `drain_connection`. What `recv` gives is the
-- system's answer, an argument; so is the handler, with the state that it works on.
pub mod Frames
pub mod Wires
pub mod Handled
pub mod Reassembled
mod Tests
use matching_engine_cpp.Base.{
  ℕ, zero, suc, Bool, true, false, Option, none, some, List, [], ◌∷◌, ◌++◌, ◌==◌, if◌then◌else◌,
  length, drop, Text, Result, ok, err,
}
use matching_engine_cpp.Gateway.{Command}
use matching_engine_cpp.Protocol.Frames.{
  MessageType, Frame, type_event, parse_frame, decode_command,
}

-- An answer of `recv`: some bytes, the end of the session, or nothing for now.
pub data Received : Type 0 where
  bytes : Text → Received
  end_of_session : Received
  nothing_yet : Received

-- `is_open` says that `fd` is not negative.
pub record Conn : Type 0 where
  pub is_open : Bool
  pub buffer : Text

-- The first loop, on the answers that `recv` will give: the buffer and whether the session goes on.
unfoldable pub receive : List Received → Text → Text × Bool
receive [] buffer = (buffer, true)
receive (bytes b ∷ rs) buffer = receive rs (buffer ++ b)
receive (end_of_session ∷ rs) buffer = (buffer, false)
receive (nothing_yet ∷ rs) buffer = (buffer, true)

-- How the second loop ends: at an offset, by an exception, or not on the fuel that it was given.
pub data Stop : Type 0 where
  at : ℕ → Stop
  exception : Stop
  unfinished : Stop

module _ {S : Type 0} where
  abbrev pub handled : S × Bool → (S → S × Stop) → S × Stop
  handled (s, false) more = (s, exception)
  handled (s, true) more = more s

  abbrev pub stopped : Text → S × Stop → Conn × S
  stopped buffer (s, at offset) = (record { is_open = true; buffer = drop offset buffer }, s)
  stopped buffer (s, exception) = (record { is_open = false; buffer = buffer }, s)
  stopped buffer (s, unfinished) = (record { is_open = true; buffer = buffer }, s)

module _ {S : Type 0} (handler : Command → S → S × Bool) where
  -- One frame: the handler's state, and whether nothing was thrown.
  unfoldable pub handle_command : Result Command → S → S × Bool
  handle_command (err why) s = (s, false)
  handle_command (ok c) s = handler c s

  unfoldable pub handle_frame : Frame → S → S × Bool
  unfolding handle_command
  handle_frame f s =
      if f.type == type_event then (s, true) else handle_command (decode_command f.type f.payload) s

  -- What `parse_frame` gives, and the rounds after it.
  abbrev pub frame_next : (ℕ → S → S × Stop) → ℕ → Result (Option Frame) → S → S × Stop
  frame_next more offset (err why) s = (s, exception)
  frame_next more offset (ok none) s = (s, at offset)
  frame_next more offset (ok (some f)) s = handled (handle_frame f s) (more f.offset)

  -- The second loop.
  unfoldable pub frames : ℕ → Text → ℕ → S → S × Stop
  unfolding handle_frame
  frames zero buffer offset s = (s, unfinished)
  frames (suc fuel) buffer offset s =
      frame_next (frames fuel buffer) offset (parse_frame buffer offset) s

  -- A frame takes nine bytes at least: the loop ends on as much fuel as there are bytes, and one more.
  unfoldable pub drain_connection : List Received → Conn → S → Conn × S
  unfolding receive frames
  drain_connection rs conn s =
      let (buffer, goes_on) = receive rs conn.buffer in
      if goes_on
      then stopped buffer (frames (suc (length buffer)) buffer 0 s)
      else (record { is_open = false; buffer = buffer }, s)
