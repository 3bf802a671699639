-- ===== src/Image/Inode.antt =====
-- inodeFormat of format.go and writeInode of writer.go.
use go_erofs.Prelude.{
  ℕ, ◌+◌, ◌*◌, ◌%◌, ◌^◌, ◌==◌, ltb, if◌then◌else◌, Bool, true, false, ◌&&◌, ◌||◌, ◌++◌, length,
}
use go_erofs.Prelude.Bytes.{Bytes, put_le, zeros}
use go_erofs.Disk.{layout_flat_plain, layout_chunk_based}
use go_erofs.Mode.{
  stat_type, stat_type_reg, stat_type_dir, stat_type_chrdev, stat_type_blkdev, stat_type_fifo,
  stat_type_sock, stat_type_symlink,
}
use go_erofs.Image.{ErofsEntry, ErofsWriter, entry_chunk_bits}
use go_erofs.Image.Dirents.{dirent_data_size}
use go_erofs.Image.Plan.{child_names}
use go_erofs.Xattr.{xattr_count}

-- Bit 0 is free after the shift.
unfoldable pub inode_format : ℕ → Bool → ℕ
inode_format layout compact = layout * 2 % 2 ^ 16 + (if compact then 0 else 1)

-- LayoutChunkFormatIndexes
abbrev pub chunk_format_indexes : ℕ
chunk_format_indexes = 0x20

-- The field i_u. Chunk bits are at most 31, so that or'ing them in is adding them.
unfoldable pub inode_data : ErofsWriter → ErofsEntry → ℕ
inode_data w e =
    let t = stat_type e.mode in
    if t == stat_type_reg
    then (if e.layout == layout_chunk_based
        then chunk_format_indexes + entry_chunk_bits w e
        else if e.layout == layout_flat_plain && ltb 0 e.size
        then e.data_blk_addr
        else 0)
    else if t == stat_type_dir || t == stat_type_symlink
    then (if e.layout == layout_flat_plain then e.data_blk_addr else 0)
    else if t == stat_type_chrdev
        || t == stat_type_blkdev
        || t == stat_type_fifo
        || t == stat_type_sock
    then e.rdev
    else 0

unfoldable pub file_size : ErofsWriter → ErofsEntry → ℕ
file_size w e =
    let t = stat_type e.mode in
    if t == stat_type_dir
    then dirent_data_size w.block_size (child_names e)
    else if t == stat_type_symlink
    then length e.sym_target
    else e.size

-- The buffer is cleared before the fields are put in, so the bytes between them are zero.
unfoldable pub compact_inode : ErofsWriter → ErofsEntry → Bytes
compact_inode w e =
    put_le 2 (inode_format e.layout true)
    ++ (put_le 2 (xattr_count e.xattr_size)
        ++ (put_le 2 e.mode
            ++ (put_le 2 e.nlink
                ++ (put_le 4 (file_size w e)
                    ++ (zeros 4
                        ++ (put_le 4 (inode_data w e)
                            ++ (zeros 4 ++ (put_le 2 e.uid ++ (put_le 2 e.gid ++ zeros 4)))))))))

unfoldable pub extended_inode : ErofsWriter → ErofsEntry → Bytes
extended_inode w e =
    put_le 2 (inode_format e.layout false)
    ++ (put_le 2 (xattr_count e.xattr_size)
        ++ (put_le 2 e.mode
            ++ (zeros 2
                ++ (put_le 8 (file_size w e)
                    ++ (put_le 4 (inode_data w e)
                        ++ (zeros 4
                            ++ (put_le 4 e.uid
                                ++ (put_le 4 e.gid
                                    ++ (put_le 8 e.mtime
                                        ++ (put_le 4 e.mtime_ns
                                            ++ (put_le 4 e.nlink ++ zeros 16)))))))))))

unfoldable pub write_inode : ErofsWriter → ErofsEntry → Bytes
unfolding compact_inode extended_inode
write_inode w e = if e.compact then compact_inode w e else extended_inode w e
