-- ===== src/Reader/Resolving/Contents.antt =====
-- ReadFile of erofs.go on a path without symbolic links.
use go_erofs.Prelude.{
  ℕ, ◌-◌, ◌≡◌, refl, sym, true, false, ltb, le→ltb, if◌then◌else◌, length, take, take-all,
  append-nil, arith,
}
use go_erofs.Prelude.Bytes.{Bytes}
use go_erofs.Mode.{mode_dir}
use go_erofs.Writer.Paths.{segments}
use go_erofs.Reader.{Image, Inode, ok, err, invalid}
use go_erofs.Reader.Info.{read_info}
use go_erofs.Reader.Reading.Serves.{Serves}
use go_erofs.Reader.Reading.Loop.{read_at-Serves}
use go_erofs.Reader.Resolving.{is_dir_type, lookup_in_dir, max_read_file_size, read_file}
use go_erofs.Reader.Resolving.Found.{Leads, walked, resolve-Leads}

-- ReadFile of a path whose cleaned form leads over names in directories, with no symbolic link, to an
-- entry that is no directory, returns all of the data that loadBlock gives for its inode if that has at
-- most 128 MiB, and fails if it has more.
pub read_file-Leads :
    (img : Image) (name : Bytes) (nid ftype : ℕ) (fi : Inode) (d : Bytes)
    → Leads (lookup_in_dir img) img.sb.root_nid mode_dir (segments (walked name)) nid ftype
    → is_dir_type ftype ≡ false
    → read_info img nid ≡ ok fi
    → Serves img fi d
    → read_file img name ≡ (if ltb max_read_file_size (length d) then err invalid else ok d)
unfolding read_file
read_file-Leads img name nid ftype fi d h plain info s =
    let all : take (length d) d ≡ d = take-all (length d) d (omega arith) in
    let no_zeros : length d - length d ≡ 0 = omega arith in
    let enough : ltb (length d - 0) (length d) ≡ false =
      le→ltb (length d) (length d - 0) (omega arith) in
    rw
      (
        resolve-Leads img name true nid ftype h,
        plain,
        info,
        read_at-Serves img fi d s 0 fi.size,
        sym s.size,
        enough,
        all,
        no_zeros,
        append-nil d,
      )
      refl
