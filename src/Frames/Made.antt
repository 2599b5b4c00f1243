-- ===== src/Frames/Made.antt =====
-- The constructors of internal/pkg/xws, reader.go and writer.go: what they put together of the ws library.
use synp.Prelude.{◌≡◌, refl, Bool, true, false, Option, none, some, if◌then◌else◌}
use synp.Prelude.Text.{Text}
use synp.Frames.{Answers, Wrote, write, write_compressed, write_uncompressed}

-- ws.StateServerSide and ws.StateClientSide
pub data Side : Type 0 where
  server_side client_side : Side

-- wsutil.Reader with the bit of ws.StateExtended; the extension is the message state of the Reader, and
-- `control_side` the side of the frame handler, which is also called between fragments.
pub record Reader : Type 0 where
  pub side : Side
  pub extended : Bool
  pub knows_compression : Bool
  pub control_side : Side

abbrev pub new_reader_of : Side → Reader
new_reader_of side = record {
  side = side;
  extended = true;
  knows_compression = true;
  control_side = side;
}

unfoldable pub new_server_side_reader : Reader
new_server_side_reader = new_reader_of server_side

unfoldable pub new_client_side_reader : Reader
new_client_side_reader = new_reader_of client_side

-- ws.OpText and ws.OpBinary
pub data OpCode : Type 0 where
  op_text op_binary : OpCode

-- `flate_writer` says that the pointer is not nil.
pub record Writer : Type 0 where
  pub side : Side
  pub extended : Bool
  pub op_code : OpCode
  pub compressed : Bool
  pub flate_writer : Bool

unfoldable pub new_server_side_writer : Bool → Writer
new_server_side_writer compressed = record {
  side = server_side;
  extended = true;
  op_code = op_binary;
  compressed = compressed;
  flate_writer = compressed;
}

-- Write of a writer; `none` is the panic of Reset through a nil pointer.
abbrev pub reset : Bool → Wrote → Option Wrote
reset true w = some w
reset false w = none

unfoldable pub write_with : (Text → Text) → Writer → Text → Answers → Option Wrote
unfolding write_compressed write_uncompressed
write_with deflate w payload a =
    if w.compressed
    then reset w.flate_writer (write_compressed deflate payload a a.write_err)
    else some (write_uncompressed payload a a.write_err)

-- A writer that NewServerSideWriter made never panics, and writes as `write` does.
pub write_with-new_server_side_writer :
    (deflate : Text → Text) (compressed : Bool) (payload : Text) (a : Answers)
    → write_with deflate (new_server_side_writer compressed) payload a
      ≡ some (write deflate compressed payload a)
unfolding write_with new_server_side_writer write
write_with-new_server_side_writer deflate true payload a = refl
write_with-new_server_side_writer deflate false payload a = refl
