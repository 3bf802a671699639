-- ===== src/Reader/Info.antt =====
-- readInfo of erofs.go.
pub mod RoundTrip
pub mod Access
pub mod Whole
use go_erofs.Prelude.{
  ℕ, ◌+◌, ◌-◌, ◌*◌, ◌/◌, ◌%◌, ◌^◌, ◌==◌, ltb, if◌then◌else◌, Option, none, some, take,
}
use go_erofs.Prelude.Bytes.{Bytes, field}
use go_erofs.Disk.{
  SuperBlock, size_inode_compact, size_inode_extended, size_xattr_entry, size_xattr_body_header,
}
use go_erofs.Disk.Codec.{decode_inode_compact, decode_inode_extended}
use go_erofs.Reader.{ReaderAt, Image, Inode, Result, ok, err, ◌>>=◌, meta_start_pos, block_size}
use go_erofs.Xattr.{xattr_size_of_count}

-- What readInfo makes of the bytes that it has read. A uint64 size or mtime stands for itself.
unfoldable pub parse_inode : SuperBlock → ℕ → Bytes → Inode
unfolding decode_inode_compact decode_inode_extended
parse_inode sb nid buf =
    let format = field 0 2 buf in
    let layout = format / 2 % 8 in
    let dc = decode_inode_compact (take size_inode_compact buf) in
    let de = decode_inode_extended (take size_inode_extended buf) in
    if format % 2 == 0
    then record {
      nid = nid;
      icsize = size_inode_compact;
      xsize = xattr_size_of_count dc.xattr_count;
      inode_layout = layout;
      inode_data = dc.inode_data;
      size = dc.size;
      raw_mode = dc.mode;
      uid = dc.uid;
      gid = dc.gid;
      nlink = dc.nlink;
      mtime = sb.build_time;
      mtime_ns = sb.build_time_ns;
    }
    else record {
      nid = nid;
      icsize = size_inode_extended;
      xsize = xattr_size_of_count de.xattr_count;
      inode_layout = layout;
      inode_data = de.inode_data;
      size = de.size;
      raw_mode = de.mode;
      uid = de.uid;
      gid = de.gid;
      nlink = de.nlink;
      mtime = de.mtime;
      mtime_ns = de.mtime_ns;
    }

-- How many bytes readInfo asks for at an inode's address: the rest of the block, or 64 bytes where
-- that is less. The bytes asked for need not lie in one block.
unfoldable pub info_read_size : ℕ → ℕ → ℕ
info_read_size blk_size addr =
    let rest = blk_size - addr % blk_size in
    if ltb rest size_inode_extended then size_inode_extended else rest

unfoldable pub inode_addr : Image → ℕ → ℕ
inode_addr img nid = meta_start_pos img + nid * size_inode_compact

unfoldable pub read_info : Image → ℕ → Result Inode
unfolding info_read_size inode_addr
read_info img nid = do
  let addr = inode_addr img nid
  buf ← img.meta addr (info_read_size (block_size img) addr)
  ok (parse_inode img.sb nid buf)
