-- ===== src/Codec/Carried.antt =====
-- Messages of a client on their way to the handler: encoded, written, read and decoded.
use synp.Prelude.{ℕ, ◌≡◌, refl, Bool, List, [], ◌∷◌, ◌∙◌, ap, map, All, length}
use synp.Prelude.Text.{Text}
use synp.Fault.{Result, ok, err}
use synp.Frames.Delivered.{stream, read_all, read_all-stream}
use synp.Codec.{ProtoPackage, Codec, json_codec, proto_codec, proto_message, marshal, unmarshal}

module _ {M : Type 0} (pkg : ProtoPackage M) (c : Codec) where
  open pkg use {json_unmarshal-marshal, proto_unmarshal-marshal}

  unmarshal-marshal :
      (d : Codec) (m into : M) (bytes : Text)
      → marshal pkg d (proto_message m) ≡ ok bytes
      → unmarshal pkg d bytes (proto_message into) ≡ ok m
  unfolding marshal unmarshal
  unmarshal-marshal json_codec m into bytes h = json_unmarshal-marshal m bytes h
  unmarshal-marshal proto_codec m into bytes h = proto_unmarshal-marshal m bytes h

  -- A message with its bytes, the flag of its writer, and the number of control frames before it.
  pub record Sending : Type 0 where
    pub before : ℕ
    pub compressed : Bool
    pub message : M
    pub bytes : Text

  abbrev pub written : Sending → ℕ × (Bool × Text)
  written p = (p.before, (p.compressed, p.bytes))

  abbrev pub IsEncoded : Sending → Type 0
  IsEncoded p = marshal pkg c (proto_message p.message) ≡ ok p.bytes

  -- What was read, decoded into a value.
  abbrev pub decoded : M → Result Text → Result M
  decoded into (err e) = err e
  decoded into (ok bytes) = unmarshal pkg c bytes (proto_message into)

  decoded-written :
      (into : M) (ps : List Sending)
      → All IsEncoded ps
      → map (decoded into) (map (λ p. ok p.1.1) (map written ps)) ≡ map (λ p. ok p.message) ps
  decoded-written into [] h = refl
  decoded-written into (p ∷ ps) h =
      ap (λ r. r ∷ map (decoded into) (map (λ p. ok p.1.1) (map written ps)))
        (unmarshal-marshal c p.message into p.bytes h.0)
      ∙ ap (λ l. ok p.message ∷ l) (decoded-written into ps h.1)

  -- If inflating undoes deflating, and the codec's packages read back what they marshalled: messages that
  -- were marshalled and written, compressed or not, with control frames between them, are decoded
  -- from what Read returns, all and in order, with either codec.
  pub messages_carried :
      (deflate : Text → Text) (inflate : Text → Result Text) (into : M) (ps : List Sending)
      → ((p : Text) → inflate (deflate p) ≡ ok p)
      → All IsEncoded ps
      → map
          (decoded into)
          (read_all inflate (length (map written ps)) (stream deflate (map written ps)))
        ≡ map (λ p. ok p.message) ps
  messages_carried deflate inflate into ps undone h =
      ap (λ l. map (decoded into) l) (read_all-stream deflate inflate undone (map written ps))
      ∙ decoded-written into ps h
