-- ===== src/Tests/Modes.antt =====
-- Mode conversions.
use go_erofs.Prelude.{refl, ◌≡◌, inl, inr, arith}
use go_erofs.Mode.{
  erofs_ftype_to_file_mode, erofs_mode_to_go_file_mode, go_mode_to_unix_mode, mode_to_file_type,
  type_bits,
}
use go_erofs.Mode.RoundTrip.{
  erofs_ftype_to_file_mode-mode_to_file_type, go_mode_to_unix_mode-erofs_mode_to_go_file_mode,
}

-- A directory with the set-group-id and the sticky bit.
go_mode_to_unix_mode-erofs_mode_to_go_file_mode_example :
    go_mode_to_unix_mode (erofs_mode_to_go_file_mode 0o043755) ≡ 0o043755
go_mode_to_unix_mode-erofs_mode_to_go_file_mode_example =
    go_mode_to_unix_mode-erofs_mode_to_go_file_mode 0o043755 (omega arith) (inr (inl refl))

erofs_ftype_to_file_mode-mode_to_file_type_example :
    erofs_ftype_to_file_mode (mode_to_file_type 0o043755)
    ≡ type_bits (erofs_mode_to_go_file_mode 0o043755)
erofs_ftype_to_file_mode-mode_to_file_type_example =
    erofs_ftype_to_file_mode-mode_to_file_type 0o043755 (inr (inl refl))
