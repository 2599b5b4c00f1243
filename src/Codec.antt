-- ===== src/Codec.antt =====
-- internal/pkg/codec, and the choice of a codec in internal/pkg/providers/codec.go.
pub mod Carried
mod Examples
use synp.Prelude.{Bool, if◌then◌else◌, ◌++◌, ◌≡◌}
use synp.Prelude.Text.{Text, codes, text_eq}
use synp.Fault.{Fault, foreign, Result, ok, err}

-- protojson and proto, on the messages of the program: what was marshalled is read back.
pub record ProtoPackage (M : Type 0) : Type 0 where
  pub json_marshal : M → Result Text
  pub json_unmarshal : Text → Result M
  pub proto_marshal : M → Result Text
  pub proto_unmarshal : Text → Result M
  pub json_unmarshal-marshal :
      (m : M) (bytes : Text) → json_marshal m ≡ ok bytes → json_unmarshal bytes ≡ ok m
  pub proto_unmarshal-marshal :
      (m : M) (bytes : Text) → proto_marshal m ≡ ok bytes → proto_unmarshal bytes ≡ ok m

pub data Codec : Type 0 where
  json_codec proto_codec : Codec

unfoldable pub name : Codec → Text
name json_codec = codes "json"
name proto_codec = codes "proto"

-- newCodec, with what viper reads as the type.
abbrev pub codec_of : Text → Result Codec
codec_of type =
    if text_eq type (codes "json")
    then ok json_codec
    else if text_eq type (codes "proto")
    then ok proto_codec
    else err (
        foreign
          (codes "unsupported codec type: " ++ (type ++ codes ", expected 'json' or 'proto'")))

unfoldable pub new_codec : Result Text → Result Codec
new_codec (err e) = err e
new_codec (ok type) = codec_of type

-- A value that is a proto.Message, or another one with the name of its type.
pub data Value (M : Type 0) : Type 0 where
  proto_message : M → Value M
  other : Text → Value M

module _ {M : Type 0} (pkg : ProtoPackage M) where
  unfoldable pub marshal : Codec → Value M → Result Text
  marshal c (other type) = err (
      foreign (
        codes "failed to marshal message: invalid message type, expected proto.Message, got "
        ++ type))
  marshal json_codec (proto_message m) = pkg.json_marshal m
  marshal proto_codec (proto_message m) = pkg.proto_marshal m

  -- Unmarshal into a value; the message that is in it afterwards.
  unfoldable pub unmarshal : Codec → Text → Value M → Result M
  unmarshal c bytes (other type) = err (
      foreign (
        codes "failed to unmarshal message: invalid message type, expected proto.Message, got "
        ++ type))
  unmarshal json_codec bytes (proto_message m) = pkg.json_unmarshal bytes
  unmarshal proto_codec bytes (proto_message m) = pkg.proto_unmarshal bytes
