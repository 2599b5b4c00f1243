-- ===== src/Compression.antt =====
-- internal/pkg/compression/config.go.
use synp.Prelude.{Bool}
use synp.Prelude.Int.{ℤ}

pub record Config : Type 0 where
  pub enabled : Bool
  pub server_max_window_bits : ℤ
  pub server_no_context_takeover : Bool
  pub client_max_window_bits : ℤ
  pub client_no_context_takeover : Bool
  pub level : ℤ

-- wsflate.Parameters, with WindowBits as the number that it is made of
pub record Parameters : Type 0 where
  pub server_max_window_bits : ℤ
  pub server_no_context_takeover : Bool
  pub client_max_window_bits : ℤ
  pub client_no_context_takeover : Bool

unfoldable pub to_paramters : Config → Parameters
to_paramters cfg = record {
  server_max_window_bits = cfg.server_max_window_bits;
  server_no_context_takeover = cfg.server_no_context_takeover;
  client_max_window_bits = cfg.client_max_window_bits;
  client_no_context_takeover = cfg.client_no_context_takeover;
}

-- The field Ext is the negotiator of the ws package, and is not kept here.
pub record State : Type 0 where
  pub enabled : Bool
  pub params : Parameters
