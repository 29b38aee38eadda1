-- ===== src/Mpro/Pipeline/Submit.antt =====
-- mpro_pipeline.c: the control message that announces a frame, as it goes on the wire.
use packages.Base.{ℕ, ◌/◌, ◌%◌, ◌^◌, List, [], ◌∷◌, ◌++◌, take, if◌then◌else◌}
use packages.Mpro.Pipeline.Xfer.{Xfer}

-- `struct screen_command`, its integers still in host order.
pub record ScreenCommand : Type 0 where
  pub mode : ℕ
  pub cmd : ℕ
  pub size : ℕ
  pub x : ℕ
  pub y : ℕ
  pub w : ℕ
  pub h : ℕ

-- MPRO_CTRL_LEN_FULL, MPRO_CTRL_LEN_PARTIAL and MPRO_CTRL_LEN_COMPRESSED.
abbrev pub ctrl_len_full : ℕ
ctrl_len_full = 6

abbrev pub ctrl_len_partial : ℕ
ctrl_len_partial = 12

abbrev pub ctrl_len_compressed : ℕ
ctrl_len_compressed = 14

-- `cpu_to_le16` and `cpu_to_le32`, as bytes.
abbrev pub le16 : ℕ → List ℕ
le16 n = n % 256 ∷ n / 256 % 256 ∷ []

abbrev pub le32 : ℕ → List ℕ
le32 n = n % 256 ∷ n / 256 % 256 ∷ n / 65536 % 256 ∷ n / 16777216 % 256 ∷ []

-- The memory of the packed struct: 14 bytes.
abbrev pub command_bytes : ScreenCommand → List ℕ
command_bytes c =
    c.mode ∷ c.cmd ∷ (le32 c.size ++ (le16 c.x ++ (le16 c.y ++ (le16 c.w ++ le16 c.h))))

-- The command that `mpro_xfer_submit` fills in; `size` is the low 32 bits of the length.
unfoldable pub fill_command : Xfer → ScreenCommand
fill_command t = record {
  mode = if t.compressed then 4 else 0;
  cmd = 0x2c;
  size = t.len % 2 ^ 32;
  x = t.x % 65536;
  y = t.y % 65536;
  w = t.w % 65536;
  h = t.h % 65536;
}

unfoldable pub command_len : Xfer → ℕ
command_len t =
    if t.compressed
    then ctrl_len_compressed
    else if t.partial
    then ctrl_len_partial
    else ctrl_len_full

-- What `mpro_xfer_submit` puts on the wire: `cmd_len` bytes of the command.
unfoldable pub xfer_submit : Xfer → List ℕ
unfolding fill_command command_len
xfer_submit t = take (command_len t) (command_bytes (fill_command t))
