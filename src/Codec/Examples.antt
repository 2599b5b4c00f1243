-- ===== src/Codec/Examples.antt =====
-- Texts as messages, which json writes in brackets and proto as they are.
use synp.Prelude.{sym, ap, ◌≡◌, refl, true, List, [], ◌∷◌, map}
use synp.Prelude.Text.{Text, codes}
use synp.Fault.{Result, ok, err, foreign}
use synp.Frames.Delivered.{stream, read_all}
use synp.Codec.{ProtoPackage, json_codec, marshal}
use synp.Codec.Carried.{Sending, written, decoded, messages_carried}

unbracketed : Text → Result Text
unbracketed [] = err (foreign (codes "unexpected end"))
unbracketed (b ∷ p) = ok p

unbracketed-same : (m bytes : Text) → ok (91 ∷ m) ≡ ok bytes → unbracketed bytes ≡ ok m
unfolding unbracketed
unbracketed-same m bytes h = let e : 91 ∷ m ≡ bytes = cc (h) in sym (ap unbracketed e)

abbrev texts : ProtoPackage Text
unfolding unbracketed
texts = record {
  json_marshal = λ m. ok (91 ∷ m);
  json_unmarshal = unbracketed;
  proto_marshal = λ m. ok m;
  proto_unmarshal = λ bytes. ok bytes;
  json_unmarshal-marshal = unbracketed-same;
  proto_unmarshal-marshal = λ m bytes h. sym h;
}

-- The compressed payload has a byte in front.
abbrev deflate : Text → Text
deflate p = 0 ∷ p

abbrev sendings : List (Sending texts json_codec)
sendings =
    record { before = 1; compressed = true; message = codes "hi"; bytes = 91 ∷ codes "hi" } ∷ []

messages_carried_example :
    map
      (decoded texts json_codec [])
      (read_all unbracketed 1 (stream deflate (map (written texts json_codec) sendings)))
    ≡ ok (codes "hi") ∷ []
unfolding unbracketed marshal texts
messages_carried_example =
    messages_carried texts json_codec deflate unbracketed [] sendings (λ p. refl) (refl, tt)
