-- ===== src/Conn/Settings/Applied.antt =====
-- What the options make of the configuration.
use synp.Prelude.{
  ◌≡◌, refl, Bool, true, false, Option, none, some, List, [], ◌∷◌, arith, if◌then◌else◌,
}
use mathlib.Core.List.{foldl, foldl-append}
use synp.Prelude.Int.{ℤ, pos}
use synp.Session.{User}
use synp.Compression
use synp.Conn.Settings.{
  ConnConfig, seconds, Settings, Opt, with_read_timeout, with_write_timeout, with_compression,
  with_retry, with_read_buffer, with_write_buffer, with_auto_close, with_rate_limit, new_settings,
  positive, retries, when, when_some, OptionPackage, conn_settings,
}

-- A configured number where it is positive, and else the default
abbrev pub or_default : ℤ → ℤ → ℤ
or_default configured default = if positive configured then configured else default

applied : Bool → Opt → Settings → Settings
applied b o c = if b then o c else c

foldl-when :
    (b : Bool) (o : Opt) (opts : List Opt) (c : Settings)
    → foldl (λ c o. o c) c (when b o opts) ≡ applied b o (foldl (λ c o. o c) c opts)
unfolding applied
foldl-when true o opts c = foldl-append (λ c o. o c) c opts (o ∷ [])
foldl-when false o opts c = refl

foldl-when_some :
    (state : Option Compression.State) (c : Settings)
    → c.compression_state ≡ none
    → foldl (λ c o. o c) c (when_some state) ≡ record c { compression_state = state }
unfolding with_compression
foldl-when_some none c e = ground (arith, e)
foldl-when_some (some s) c e = refl

module _ (b : Bool) (c : Settings) where
  applied-read_timeout :
      (t : ℤ)
      → applied b (with_read_timeout t) c
        ≡ record c { read_timeout = if b then t else c.read_timeout }
  unfolding applied with_read_timeout
  applied-read_timeout t = ground arith

  applied-write_timeout :
      (t : ℤ)
      → applied b (with_write_timeout t) c
        ≡ record c { write_timeout = if b then t else c.write_timeout }
  unfolding applied with_write_timeout
  applied-write_timeout t = ground arith

  applied-write_buffer :
      (n : ℤ)
      → applied b (with_write_buffer n) c ≡ record c { send_chan = if b then n else c.send_chan }
  unfolding applied with_write_buffer
  applied-write_buffer n = ground arith

  applied-read_buffer :
      (n : ℤ)
      → applied b (with_read_buffer n) c
        ≡ record c { receive_chan = if b then n else c.receive_chan }
  unfolding applied with_read_buffer
  applied-read_buffer n = ground arith

  applied-retry :
      (i m n : ℤ)
      → applied b (with_retry i m n) c ≡ record c {
        init_retry_interval = if b then i else c.init_retry_interval;
        max_retry_interval = if b then m else c.max_retry_interval;
        max_retry_count = if b then n else c.max_retry_count;
      }
  unfolding applied with_retry
  applied-retry i m n = ground arith

rate_limit_lem :
    (r : ℤ) (c : Settings)
    → with_rate_limit r c ≡ record c { limit_rate = if positive r then some r else c.limit_rate }
unfolding with_rate_limit
rate_limit_lem r c = ground arith

ruleset option_laws = (
  foldl-append, foldl-when, applied-read_timeout, applied-write_timeout, applied-write_buffer,
  applied-read_buffer, applied-retry, rate_limit_lem,
)

-- The options with a test, one after another, set exactly the fields that their tests allow.
pub conn_settings_lem :
    (pkg : OptionPackage) (cfg : ConnConfig) (user : User) (state : Option Compression.State)
    → let c = conn_settings pkg cfg user state in
      (c.read_timeout ≡ or_default cfg.read_timeout (seconds 15))
      × (c.write_timeout ≡ or_default cfg.write_timeout (seconds 10))
      × (c.compression_state ≡ state)
      × (c.send_chan ≡ or_default cfg.send_buffer_size (pos 256))
      × (c.receive_chan ≡ or_default cfg.receive_buffer_size (pos 256))
      × (c.auto_close ≡ user.auto_close)
      × (c.limit_rate ≡ (if positive cfg.rate_limit then some cfg.rate_limit else none))
      × (c.init_retry_interval ≡ (if retries cfg then cfg.init_retry_interval else seconds 1))
      × (c.max_retry_interval ≡ (if retries cfg then cfg.max_retry_interval else seconds 5))
      × (c.max_retry_count ≡ (if retries cfg then cfg.max_retry_count else pos 3))
unfolding conn_settings with_auto_close
conn_settings_lem pkg cfg user state =
    simp (pkg.apply_lem, option_laws, foldl-when_some state new_settings refl)
      (refl, refl, refl, refl, refl, refl, refl, refl, refl, refl)
