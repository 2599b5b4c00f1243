-- ===== src/Frames.antt =====
-- internal/pkg/xws, reader.go and writer.go: messages on a WebSocket, with control frames between them.
pub mod Delivered
pub mod Made
use synp.Prelude.{
  ℕ, zero, suc, Bool, true, false, Option, none, some, List, [], ◌∷◌, ◌++◌, if◌then◌else◌, length,
}
use synp.Prelude.Text.{Text}
use synp.Fault.{Fault, Result, ok, err}

-- What the loop of Read meets in the ws library: an error of NextFrame, a control frame with what its
-- handler returns, or a message, with the bit of the compression and what io.ReadAll gives for it.
pub data Frame : Type 0 where
  failed : Fault → Frame
  control : Option Fault → Frame
  message : Bool → Result Text → Frame

abbrev pub inflated : (Text → Result Text) → Result Text → Result Text
inflated inflate (err e) = err e
inflated inflate (ok raw) = inflate raw

-- Read, over the frames that come, with the rest; `none` means that it waits. `inflate` is io.ReadAll of
-- the flate reader.
unfoldable pub read : (Text → Result Text) → List Frame → Option (Result Text × List Frame)
read inflate [] = none
read inflate (failed e ∷ rest) = some (err e, rest)
read inflate (control none ∷ rest) = read inflate rest
read inflate (control (some e) ∷ rest) = some (err e, rest)
read inflate (message compressed raw ∷ rest) =
    some (if compressed then inflated inflate raw else raw, rest)

-- What the calls of the library return to Write: those of the write, of the flate writer's Close, and of
-- Flush.
pub record Answers : Type 0 where
  pub write_err : Option Fault
  pub close_err : Option Fault
  pub flush_err : Option Fault

-- What Write returns, and the frames that were flushed.
pub record Wrote : Type 0 where
  pub count : ℕ
  pub error : Option Fault
  pub flushed : List Frame

abbrev pub unwritten : Fault → Wrote
unwritten e = record { count = 0; error = some e; flushed = [] }

abbrev pub flushing : ℕ → Frame → Option Fault → Wrote
flushing n frame none = record { count = n; error = none; flushed = frame ∷ [] }
flushing n frame (some e) = record { count = n; error = some e; flushed = [] }

abbrev pub closing : ℕ → Frame → Answers → Option Fault → Wrote
closing n frame a none = flushing n frame a.flush_err
closing n frame a (some e) = unwritten e

unfoldable pub write_compressed : (Text → Text) → Text → Answers → Option Fault → Wrote
write_compressed deflate payload a none =
    closing (length payload) (message true (ok (deflate payload))) a a.close_err
write_compressed deflate payload a (some e) = unwritten e

unfoldable pub write_uncompressed : Text → Answers → Option Fault → Wrote
write_uncompressed payload a none =
    flushing (length payload) (message false (ok payload)) a.flush_err
write_uncompressed payload a (some e) = unwritten e

-- Write of a writer that NewServerSideWriter made with the flag `compressed`. `deflate` is what the flate
-- writer makes of a payload.
unfoldable pub write : (Text → Text) → Bool → Text → Answers → Wrote
unfolding write_compressed write_uncompressed
write deflate compressed payload a =
    if compressed
    then write_compressed deflate payload a a.write_err
    else write_uncompressed payload a a.write_err
