-- ===== src/Reader/Info/RoundTrip.antt =====
-- readInfo of erofs.go on what writeInode of writer.go wrote.
use go_erofs.Prelude.{
  ℕ, ◌*◌, ◌/◌, ◌%◌, ◌^◌, ◌<◌, ◌==◌, ◌≡◌, ◌≢◌, sym, ap, ◌∙◌, Bool, true, false, if◌then◌else◌, ◌++◌,
  arith, Bool-cases, inl, inr, length,
}
use go_erofs.Prelude.Bytes.{Bytes, get_le-put_le}
use go_erofs.Disk.{SuperBlock}
use go_erofs.Image.{ErofsEntry, ErofsWriter, inode_core_size}
use go_erofs.Image.Plan.{fits_compact}
use go_erofs.Image.Inode.{
  inode_format, inode_data, file_size, compact_inode, extended_inode, write_inode,
}
use go_erofs.Reader.{Inode}
use go_erofs.Reader.Info.{parse_inode}
use go_erofs.Xattr.{calc_xattr_size, xattr_count, xattr_size_of_count}
use go_erofs.Xattr.Size.{xattr_size_of_count-xattr_count}

-- An entry as planLayout leaves it, with values that fit the fields of an extended inode. Data that
-- is not a regular file's has a size that fits the compact inode too.
pub record IsEncodable (w : ErofsWriter) (e : ErofsEntry) : Type 0 where
  pub planned_compact : e.compact ≡ fits_compact w e
  pub planned_xattrs : e.xattr_size ≡ calc_xattr_size e.xattrs
  pub few_xattrs : e.xattr_size < 4 * 2 ^ 16
  pub layout : e.layout < 8
  pub mode : e.mode < 2 ^ 16
  pub uid : e.uid < 2 ^ 32
  pub gid : e.gid < 2 ^ 32
  pub nlink : e.nlink < 2 ^ 32
  pub size : file_size w e < 2 ^ 64
  pub small : file_size w e ≢ e.size → file_size w e < 2 ^ 32
  pub data_fits : inode_data w e < 2 ^ 32
  pub mtime : e.mtime < 2 ^ 64
  pub mtime_ns : e.mtime_ns < 2 ^ 32

-- The inode that the reader is to find for an entry.
abbrev pub expected : SuperBlock → ErofsWriter → ErofsEntry → Inode
expected sb w e = record {
  nid = e.nid;
  icsize = inode_core_size e;
  xsize = e.xattr_size;
  inode_layout = e.layout;
  inode_data = inode_data w e;
  size = file_size w e;
  raw_mode = e.mode;
  uid = e.uid;
  gid = e.gid;
  nlink = e.nlink;
  mtime = e.mtime;
  mtime_ns = if e.compact then sb.build_time_ns else e.mtime_ns;
}

pub length-write_inode :
    (w : ErofsWriter) (e : ErofsEntry) → length (write_inode w e) ≡ inode_core_size e
unfolding write_inode inode_core_size
length-write_inode w e = elim (Bool-cases e.compact) [ inl c ↦ rw c | inr c ↦ rw c ]

format_parts :
    (layout : ℕ) (compact : Bool)
    → layout < 8
    → (inode_format layout compact / 2 % 8 ≡ layout)
      × ((inode_format layout compact % 2 == 0) ≡ compact)
      × (inode_format layout compact < 2 ^ 16)
unfolding inode_format
format_parts layout true h = (omega arith, ground arith, omega arith)
format_parts layout false h = (omega arith, ground arith, omega arith)

compact_bounds :
    (w : ErofsWriter) (e : ErofsEntry)
    → fits_compact w e ≡ true
    → (e.uid < 2 ^ 16)
      × (e.gid < 2 ^ 16)
      × (e.nlink < 2 ^ 16)
      × (e.size < 2 ^ 32)
      × (e.mtime ≡ w.build_time)
      × (e.mtime_ns ≡ 0)
unfolding fits_compact
compact_bounds w e h = ground arith

xattr_count-lt : (size : ℕ) → xattr_count size < 2 ^ 16
unfolding xattr_count
xattr_count-lt size = ground arith

small_file : (f size : ℕ) → size < 2 ^ 32 → (f ≢ size → f < 2 ^ 32) → f < 2 ^ 32
small_file f size s h = elim (Bool-cases (f == size)) [
  | inl q ↦ ground arith
  | inr q ↦ h (ground arith)
]

module _ (sb : SuperBlock) (w : ErofsWriter) (e : ErofsEntry) (rest : Bytes)
    (ok : IsEncodable w e) where
  xattrs_back : xattr_size_of_count (xattr_count e.xattr_size) ≡ e.xattr_size
  xattrs_back =
      rw ok.planned_xattrs
        (xattr_size_of_count-xattr_count e.xattrs (rw ok.planned_xattrs at ok.few_xattrs))

  compact_back :
      e.compact ≡ true
      → w.build_time ≡ sb.build_time
      → parse_inode sb e.nid (compact_inode w e ++ rest) ≡ expected sb w e
  unfolding compact_inode parse_inode inode_core_size
  compact_back c built =
      let (u, g, n, s, t, z) = compact_bounds w e (sym ok.planned_compact ∙ c) in
      let (fl, fc, fb) = format_parts e.layout true ok.layout in
      rw (
        get_le-put_le 2 (inode_format e.layout true) fb,
        fc,
        fl,
        get_le-put_le 2 (xattr_count e.xattr_size) (xattr_count-lt e.xattr_size),
        xattrs_back,
        get_le-put_le 2 e.mode ok.mode,
        get_le-put_le 2 e.nlink n,
        get_le-put_le 4 (file_size w e) (small_file (file_size w e) e.size s ok.small),
        get_le-put_le 4 (inode_data w e) ok.data_fits,
        get_le-put_le 2 e.uid u,
        get_le-put_le 2 e.gid g,
        c,
        t,
        built,
      )

  extended_back :
      e.compact ≡ false → parse_inode sb e.nid (extended_inode w e ++ rest) ≡ expected sb w e
  unfolding extended_inode parse_inode inode_core_size
  extended_back c =
      let (fl, fc, fb) = format_parts e.layout false ok.layout in
      rw (
        get_le-put_le 2 (inode_format e.layout false) fb,
        fc,
        fl,
        get_le-put_le 2 (xattr_count e.xattr_size) (xattr_count-lt e.xattr_size),
        xattrs_back,
        get_le-put_le 2 e.mode ok.mode,
        get_le-put_le 4 e.nlink ok.nlink,
        get_le-put_le 8 (file_size w e) ok.size,
        get_le-put_le 4 (inode_data w e) ok.data_fits,
        get_le-put_le 4 e.uid ok.uid,
        get_le-put_le 4 e.gid ok.gid,
        get_le-put_le 8 e.mtime ok.mtime,
        get_le-put_le 4 e.mtime_ns ok.mtime_ns,
        c,
      )

  chosen :
      (b : Bool)
      → e.compact ≡ b
      → write_inode w e ≡ (if b then compact_inode w e else extended_inode w e)
  unfolding write_inode
  chosen b c = ap (λ k. if k then compact_inode w e else extended_inode w e) c

  -- From the bytes that were written for a planned entry whose values fit their fields, whatever
  -- follows them, the reader makes out every field, for a compact inode as for an extended one, if
  -- the superblock has the writer's build time. The nanoseconds of a compact inode are those of
  -- the superblock.
  pub parse_inode-write_inode :
      w.build_time ≡ sb.build_time
      → parse_inode sb e.nid (write_inode w e ++ rest) ≡ expected sb w e
  parse_inode-write_inode built = elim (Bool-cases e.compact) [
    | inl c ↦ rw (chosen true c) (compact_back c built)
    | inr c ↦ rw (chosen false c) (extended_back c)
  ]

  -- With build nanoseconds that are not 0, and a superblock with the writer's build time and
  -- nanoseconds, every planned entry whose values fit their fields and that is written as a
  -- compact inode is read back with nanoseconds that it does not have.
  pub compact_mtime_ns_lost :
      w.build_time ≡ sb.build_time
      → w.build_time_ns ≡ sb.build_time_ns
      → w.build_time_ns ≢ 0
      → e.compact ≡ true
      → (parse_inode sb e.nid (write_inode w e ++ rest)).mtime_ns ≢ e.mtime_ns
  compact_mtime_ns_lost built ns pos c =
      let (u, g, n, s, t, z) = compact_bounds w e (sym ok.planned_compact ∙ c) in
      rw (parse_inode-write_inode built) (ground arith)
