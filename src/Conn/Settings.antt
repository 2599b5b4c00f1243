-- ===== src/Conn/Settings.antt =====
-- The options of conn.go, the defaults of NewConn, and convertToConnOpts of conn_manager.go.
pub mod Applied
use synp.Prelude.{
  ℕ, ◌≡◌, refl, sym, ◌∙◌, ap, Bool, true, false, ◌&&◌, Option, none, some, List, [], ◌∷◌, ◌++◌,
  arith, if◌then◌else◌, ◌*◌,
}
use mathlib.Core.List.{foldl, foldl-append}
use synp.Prelude.Int.{ℤ, pos, ltb_ℤ}
use synp.Session.{User}
use synp.Compression

-- The fields of ConnConfig, with durations in nanoseconds.
pub record ConnConfig : Type 0 where
  pub read_timeout : ℤ
  pub write_timeout : ℤ
  pub init_retry_interval : ℤ
  pub max_retry_interval : ℤ
  pub max_retry_count : ℤ
  pub send_buffer_size : ℤ
  pub receive_buffer_size : ℤ
  pub close_timeout : ℤ
  pub rate_limit : ℤ

abbrev pub seconds : ℕ → ℤ
seconds n = pos (n * 1000000000)

-- The configuration of NewConnManager without options: the constants Default…
unfoldable pub default_conn_config : ConnConfig
default_conn_config = record {
  read_timeout = seconds 15;
  write_timeout = seconds 10;
  init_retry_interval = seconds 1;
  max_retry_interval = seconds 5;
  max_retry_count = pos 3;
  send_buffer_size = pos 256;
  receive_buffer_size = pos 256;
  close_timeout = seconds 1;
  rate_limit = pos 10;
}

-- The fields of Conn that the options set. The channels are their capacities, and `limit_rate` is
-- `none` where there is no limiter.
pub record Settings : Type 0 where
  pub read_timeout : ℤ
  pub write_timeout : ℤ
  pub compression_state : Option Compression.State
  pub init_retry_interval : ℤ
  pub max_retry_interval : ℤ
  pub max_retry_count : ℤ
  pub receive_chan : ℤ
  pub send_chan : ℤ
  pub auto_close : Bool
  pub limit_rate : Option ℤ

abbrev pub Opt : Type 0
Opt = Settings → Settings

unfoldable pub with_read_timeout : ℤ → Opt
with_read_timeout t c = record c { read_timeout = t }

unfoldable pub with_write_timeout : ℤ → Opt
with_write_timeout t c = record c { write_timeout = t }

unfoldable pub with_compression : Compression.State → Opt
with_compression state c = record c { compression_state = some state }

unfoldable pub with_retry : ℤ → ℤ → ℤ → Opt
with_retry init max count c = record c {
  init_retry_interval = init;
  max_retry_interval = max;
  max_retry_count = count;
}

unfoldable pub with_read_buffer : ℤ → Opt
with_read_buffer size c = record c { receive_chan = size }

unfoldable pub with_write_buffer : ℤ → Opt
with_write_buffer size c = record c { send_chan = size }

unfoldable pub with_auto_close : Bool → Opt
with_auto_close b c = record c { auto_close = b }

unfoldable pub with_rate_limit : ℤ → Opt
with_rate_limit rate c = if ltb_ℤ (pos 0) rate then record c { limit_rate = some rate } else c

-- The composite literal of NewConn
unfoldable pub new_settings : Settings
new_settings = record {
  read_timeout = seconds 15;
  write_timeout = seconds 10;
  compression_state = none;
  init_retry_interval = seconds 1;
  max_retry_interval = seconds 5;
  max_retry_count = pos 3;
  receive_chan = pos 256;
  send_chan = pos 256;
  auto_close = false;
  limit_rate = none;
}

abbrev pub positive : ℤ → Bool
positive n = ltb_ℤ (pos 0) n

-- The three numbers of the retry strategy are used together or not at all.
abbrev pub retries : ConnConfig → Bool
retries cfg =
    positive cfg.init_retry_interval
    && (positive cfg.max_retry_interval && positive cfg.max_retry_count)

-- append(opts, o) where the test holds
abbrev pub when : Bool → Opt → List Opt → List Opt
when b o opts = if b then opts ++ o ∷ [] else opts

abbrev pub when_some : Option Compression.State → List Opt
when_some none = []
when_some (some s) = with_compression s ∷ []

unfoldable pub convert_to_conn_opts : ConnConfig → User → Option Compression.State → List Opt
convert_to_conn_opts cfg user state =
    let o1 = when_some state in
    let o2 = when (positive cfg.read_timeout) (with_read_timeout cfg.read_timeout) o1 in
    let o3 = when (positive cfg.write_timeout) (with_write_timeout cfg.write_timeout) o2 in
    let o4 = when (positive cfg.send_buffer_size) (with_write_buffer cfg.send_buffer_size) o3 in
    let o5 =
      when (positive cfg.receive_buffer_size) (with_read_buffer cfg.receive_buffer_size) o4 in
    let retry = with_retry cfg.init_retry_interval cfg.max_retry_interval cfg.max_retry_count in
    let o6 = when (retries cfg) retry o5 in
    o6 ++ with_auto_close user.auto_close ∷ with_rate_limit cfg.rate_limit ∷ []

-- option.Apply of the jit package, as the program relies on it: the options run in order.
pub record OptionPackage : Type 0 where
  pub apply : Settings → List Opt → Settings
  pub apply_lem : (c : Settings) (opts : List Opt) → apply c opts ≡ foldl (λ c o. o c) c opts

-- The settings of the connection that the manager makes
unfoldable pub conn_settings :
    OptionPackage → ConnConfig → User → Option Compression.State → Settings
unfolding convert_to_conn_opts new_settings
conn_settings pkg cfg user state = pkg.apply new_settings (convert_to_conn_opts cfg user state)
