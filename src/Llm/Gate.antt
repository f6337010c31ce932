-- ===== src/Llm/Gate.antt =====
-- pkg/llm/gate.go: true where `CheckBytes` and `CheckInput` return `ErrTooLarge`.
use valve.Common.{ℕ, ℤ, pos, ltb_ℤ, Bool, ◌&&◌}

pub record Gate : Type 0 where
  pub max_input_tokens : ℤ
  pub max_request_bytes : ℤ

-- `CheckBytes`
unfoldable pub check_bytes : Gate → ℕ → Bool
check_bytes g n = ltb_ℤ (pos 0) g.max_request_bytes && ltb_ℤ g.max_request_bytes (pos n)

-- `CheckInput`
unfoldable pub check_input : Gate → ℤ → Bool
check_input g input_tokens =
    ltb_ℤ (pos 0) g.max_input_tokens && ltb_ℤ g.max_input_tokens input_tokens
