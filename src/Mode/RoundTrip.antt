-- ===== src/Mode/RoundTrip.antt =====
-- The mode conversions of format.go and internal/disk/ftypes.go against one another.
use go_erofs.Prelude.{ℕ, ◌+◌, ◌*◌, ◌/◌, ◌%◌, ◌^◌, ◌<◌, ◌≡◌, refl, sym, ◌∙◌, ◌⊎◌, inl, inr, arith}
use go_erofs.Mode.{
  bit_of, mode_dir, mode_device, mode_char_device, mode_named_pipe, mode_socket, mode_symlink,
  mode_setuid, mode_setgid, mode_sticky, stat_type, type_bits, unix_type_of, go_type_of,
  go_mode_to_unix_mode, erofs_mode_to_go_file_mode, mode_to_file_type, erofs_ftype_to_file_mode,
  stat_type_reg, stat_type_dir, stat_type_chrdev, stat_type_blkdev, stat_type_fifo, stat_type_sock,
  stat_type_symlink,
}

-- A mode has one of the seven types that Unix and EROFS know.
abbrev pub IsKnownType : ℕ → Type 0
IsKnownType t =
    (t ≡ stat_type_reg)
    ⊎ (t ≡ stat_type_dir)
    ⊎ (t ≡ stat_type_chrdev)
    ⊎ (t ≡ stat_type_blkdev)
    ⊎ (t ≡ stat_type_fifo)
    ⊎ (t ≡ stat_type_sock)
    ⊎ (t ≡ stat_type_symlink)

-- The type bits that Go gives to those types.
abbrev IsGoType : ℕ → Type 0
IsGoType d =
    (d ≡ 0)
    ⊎ (d ≡ mode_dir)
    ⊎ (d ≡ mode_device + mode_char_device)
    ⊎ (d ≡ mode_device)
    ⊎ (d ≡ mode_named_pipe)
    ⊎ (d ≡ mode_socket)
    ⊎ (d ≡ mode_symlink)

go_type_of-IsGoType : (t : ℕ) → IsKnownType t → IsGoType (go_type_of t)
unfolding go_type_of
go_type_of-IsGoType t (inl e) = rw e (inl refl)
go_type_of-IsGoType t (inr (inl e)) = rw e (inr (inl refl))
go_type_of-IsGoType t (inr (inr (inl e))) = rw e (inr (inr (inl refl)))
go_type_of-IsGoType t (inr (inr (inr (inl e)))) = rw e (inr (inr (inr (inl refl))))
go_type_of-IsGoType t (inr (inr (inr (inr (inl e))))) = rw e (inr (inr (inr (inr (inl refl)))))
go_type_of-IsGoType t (inr (inr (inr (inr (inr (inl e)))))) =
    rw e (inr (inr (inr (inr (inr (inl refl))))))
go_type_of-IsGoType t (inr (inr (inr (inr (inr (inr e)))))) =
    rw e (inr (inr (inr (inr (inr (inr refl))))))

unix_type_of-go_type_of : (t : ℕ) → IsKnownType t → unix_type_of (go_type_of t) ≡ t
unfolding unix_type_of go_type_of
unix_type_of-go_type_of t h = ground arith

-- A file mode made of permissions, one type and the three flags.
abbrev assembled : ℕ → ℕ → ℕ → ℕ → ℕ → ℕ
assembled p d s g k = p + d + s * mode_setuid + g * mode_setgid + k * mode_sticky

assembled_digits :
    (p d s g k : ℕ)
    → p < 512
    → s < 2
    → g < 2
    → k < 2
    → IsGoType d
    → (type_bits (assembled p d s g k) ≡ d)
      × (assembled p d s g k % 512 ≡ p)
      × (bit_of (assembled p d s g k) mode_setuid / mode_setuid ≡ s)
      × (bit_of (assembled p d s g k) mode_setgid / mode_setgid ≡ g)
      × (bit_of (assembled p d s g k) mode_sticky / mode_sticky ≡ k)
assembled_digits p d s g k hp hs hg hk (inl e) = rw e (omega arith)
assembled_digits p d s g k hp hs hg hk (inr (inl e)) = rw e (omega arith)
assembled_digits p d s g k hp hs hg hk (inr (inr (inl e))) = rw e (omega arith)
assembled_digits p d s g k hp hs hg hk (inr (inr (inr (inl e)))) = rw e (omega arith)
assembled_digits p d s g k hp hs hg hk (inr (inr (inr (inr (inl e))))) = rw e (omega arith)
assembled_digits p d s g k hp hs hg hk (inr (inr (inr (inr (inr (inl e)))))) = rw e (omega arith)
assembled_digits p d s g k hp hs hg hk (inr (inr (inr (inr (inr (inr e)))))) = rw e (omega arith)

-- The digits of the file mode of a 16-bit mode.
abbrev IsReadBack : ℕ → ℕ → Type 0
IsReadBack m x =
    (type_bits x ≡ go_type_of (stat_type m))
    × (x % 512 ≡ m % 512)
    × (bit_of x mode_setuid / mode_setuid ≡ m / 0o4000 % 2)
    × (bit_of x mode_setgid / mode_setgid ≡ m / 0o2000 % 2)
    × (bit_of x mode_sticky / mode_sticky ≡ m / 0o1000 % 2)

erofs_mode_to_go_file_mode_digits :
    (m : ℕ) → IsKnownType (stat_type m) → IsReadBack m (erofs_mode_to_go_file_mode m)
unfolding erofs_mode_to_go_file_mode
erofs_mode_to_go_file_mode_digits m known =
    assembled_digits (m % 512) (go_type_of (stat_type m)) (m / 0o4000 % 2) (m / 0o2000 % 2)
      (m / 0o1000 % 2) (omega arith) (omega arith) (omega arith) (omega arith)
      (go_type_of-IsGoType (stat_type m) known)

-- Where a 16-bit mode has a known type, the conversion to fs.FileMode and back loses nothing.
pub go_mode_to_unix_mode-erofs_mode_to_go_file_mode :
    (m : ℕ)
    → m < 2 ^ 16
    → IsKnownType (stat_type m)
    → go_mode_to_unix_mode (erofs_mode_to_go_file_mode m) ≡ m
go_mode_to_unix_mode-erofs_mode_to_go_file_mode m h known =
    let (t, p, s, g, k) = erofs_mode_to_go_file_mode_digits m known in
    unfold go_mode_to_unix_mode in
    rw (t, p, s, g, k, unix_type_of-go_type_of (stat_type m) known) (omega arith)

file_mode_of_file_type :
    (m : ℕ)
    → IsKnownType (stat_type m)
    → erofs_ftype_to_file_mode (mode_to_file_type m) ≡ go_type_of (stat_type m)
unfolding erofs_ftype_to_file_mode mode_to_file_type go_type_of
file_mode_of_file_type m known = ground arith

-- The file type that a dirent gets for a mode of a known type is read back as the type bits that
-- the mode itself is read back with.
pub erofs_ftype_to_file_mode-mode_to_file_type :
    (m : ℕ)
    → IsKnownType (stat_type m)
    → erofs_ftype_to_file_mode (mode_to_file_type m) ≡ type_bits (erofs_mode_to_go_file_mode m)
erofs_ftype_to_file_mode-mode_to_file_type m known =
    file_mode_of_file_type m known ∙ sym (erofs_mode_to_go_file_mode_digits m known).0
