-- ===== src/Frames/Delivered.antt =====
-- What was written is what is read, whatever control frames come between.
use synp.Prelude.{
  ℕ, zero, suc, ◌≡◌, refl, ◌↔◌, ap, ◌∙◌, Bool, true, false, Option, none, some, List, [], ◌∷◌, ◌++◌,
  map, arith, length,
}
use synp.Prelude.Text.{Text}
use synp.Fault.{Result, ok}
use synp.Frames.{Frame, control, read, Answers, write, write_compressed, write_uncompressed}

-- Control frames that their handler took.
abbrev pub controls : ℕ → List Frame
controls zero = []
controls (suc n) = control none ∷ controls n

abbrev pub no_error : Answers
no_error = record { write_err = none; close_err = none; flush_err = none }

-- A stream in which each payload is written after some control frames, by a writer with compression or
-- without.
abbrev pub stream : (Text → Text) → List (ℕ × (Bool × Text)) → List Frame
stream deflate [] = []
stream deflate ((n, (compressed, payload)) ∷ ps) =
    controls n ++ ((write deflate compressed payload no_error).flushed ++ stream deflate ps)

abbrev pub next :
    (List Frame → List (Result Text)) → Option (Result Text × List Frame) → List (Result Text)
next again none = []
next again (some (r, rest)) = r ∷ again rest

-- What Read returns when it is called as often as the number says, up to a call that waits.
unfoldable pub read_all : (Text → Result Text) → ℕ → List Frame → List (Result Text)
unfolding read
read_all inflate zero frames = []
read_all inflate (suc n) frames = next (λ rest. read_all inflate n rest) (read inflate frames)

skipped :
    (inflate : Text → Result Text) (n : ℕ) (frames : List Frame)
    → read inflate (controls n ++ frames) ≡ read inflate frames
unfolding read
skipped inflate zero frames = refl
skipped inflate (suc n) frames = skipped inflate n frames

module _ (deflate : Text → Text) (inflate : Text → Result Text)
    (inflate-deflate : (p : Text) → inflate (deflate p) ≡ ok p) where
  read-write :
      (compressed : Bool) (payload : Text) (frames : List Frame)
      → read inflate ((write deflate compressed payload no_error).flushed ++ frames)
        ≡ some (ok payload, frames)
  unfolding read write write_compressed write_uncompressed
  read-write true payload frames = ap (λ r. some (r, frames)) (inflate-deflate payload)
  read-write false payload frames = refl

  -- If inflating undoes deflating: the payloads that writers with or without compression wrote, without
  -- an error, are what Read returns, in order, whatever control frames come before each of them.
  pub read_all-stream :
      (ps : List (ℕ × (Bool × Text)))
      → read_all inflate (length ps) (stream deflate ps) ≡ map (λ p. ok p.1.1) ps
  unfolding read_all
  read_all-stream [] = refl
  read_all-stream ((n, (compressed, payload)) ∷ ps) =
      ap (λ o. next (λ rest. read_all inflate (length ps) rest) o)
        (skipped inflate n
            ((write deflate compressed payload no_error).flushed ++ stream deflate ps)
          ∙ read-write compressed payload (stream deflate ps))
      ∙ ap (λ l. ok payload ∷ l) (read_all-stream ps)

-- Write returns an error exactly when it flushed no frame; otherwise it flushed one, with the whole
-- payload in it, and returns its length.
pub write_iff :
    (deflate : Text → Text) (compressed : Bool) (payload : Text) (a : Answers)
    → let w = write deflate compressed payload a in
      (w.error ≡ none) ↔ (
        w ≡ record {
          count = length payload;
          error = none;
          flushed = (write deflate compressed payload no_error).flushed;
        })
unfolding write write_compressed write_uncompressed
write_iff deflate true payload a = ((λ h. ground (arith, h)), (λ h. ap (λ w. w.error) h))
write_iff deflate false payload a = ((λ h. ground (arith, h)), (λ h. ap (λ w. w.error) h))
