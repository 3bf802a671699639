-- ===== src/Disk/Codec.antt =====
-- binary.Decode and binary.Write of encoding/binary, little endian, for the records of
-- internal/disk/types.go: each field stands at the offset that the sizes of those before it give.
use go_erofs.Prelude.{◌++◌}
use go_erofs.Prelude.Bytes.{Bytes, put_le, field, zeros}
use go_erofs.Disk.{SuperBlock, InodeCompact, InodeExtended, Dirent, XattrEntry, DeviceSlot}

unfoldable pub decode_super_block_fields : Bytes → SuperBlock
decode_super_block_fields b = record {
  magic = field 0 4 b;
  blk_size_bits = field 12 1 b;
  root_nid = field 14 2 b;
  inos = field 16 8 b;
  build_time = field 24 8 b;
  build_time_ns = field 32 4 b;
  blocks = field 36 4 b;
  meta_blk_addr = field 40 4 b;
  xattr_blk_addr = field 44 4 b;
  feature_incompat = field 80 4 b;
  compr_algs = field 84 2 b;
  extra_devices = field 86 2 b;
  devt_slot_off = field 88 2 b;
  xattr_prefix_count = field 91 1 b;
  xattr_prefix_start = field 92 4 b;
  packed_nid = field 96 8 b;
}

-- The fields that a record leaves out are written as the zeros that a Go literal gives them.
unfoldable pub encode_super_block : SuperBlock → Bytes
encode_super_block s =
    put_le 4 s.magic
    ++ (zeros 8
        ++ (put_le 1 s.blk_size_bits
            ++ (zeros 1
                ++ (put_le 2 s.root_nid
                    ++ (put_le 8 s.inos
                        ++ (put_le 8 s.build_time
                            ++ (put_le 4 s.build_time_ns
                                ++ (put_le 4 s.blocks
                                    ++ (put_le 4 s.meta_blk_addr
                                        ++ (put_le 4 s.xattr_blk_addr
                                            ++ (zeros 32
                                                ++ (put_le 4 s.feature_incompat
                                                    ++ (put_le 2 s.compr_algs
                                                        ++ (put_le 2 s.extra_devices
                                                            ++ (put_le 2 s.devt_slot_off
                                                            ++ (zeros 1
                                                            ++ (put_le 1 s.xattr_prefix_count
                                                            ++ (put_le 4 s.xattr_prefix_start
                                                            ++ (put_le 8 s.packed_nid
                                                            ++ zeros 24)))))))))))))))))))

unfoldable pub decode_inode_compact : Bytes → InodeCompact
decode_inode_compact b = record {
  format = field 0 2 b;
  xattr_count = field 2 2 b;
  mode = field 4 2 b;
  nlink = field 6 2 b;
  size = field 8 4 b;
  inode_data = field 16 4 b;
  uid = field 24 2 b;
  gid = field 26 2 b;
}

unfoldable pub decode_inode_extended : Bytes → InodeExtended
decode_inode_extended b = record {
  format = field 0 2 b;
  xattr_count = field 2 2 b;
  mode = field 4 2 b;
  size = field 8 8 b;
  inode_data = field 16 4 b;
  uid = field 24 4 b;
  gid = field 28 4 b;
  mtime = field 32 8 b;
  mtime_ns = field 40 4 b;
  nlink = field 44 4 b;
}

unfoldable pub decode_dirent : Bytes → Dirent
decode_dirent b = record { nid = field 0 8 b; name_off = field 8 2 b; file_type = field 10 1 b }

unfoldable pub decode_xattr_entry : Bytes → XattrEntry
decode_xattr_entry b = record {
  name_len = field 0 1 b;
  name_index = field 1 1 b;
  value_len = field 2 2 b;
}

unfoldable pub decode_device_slot : Bytes → DeviceSlot
decode_device_slot b = record { blocks = field 64 4 b; mapped_blk_addr = field 68 4 b }

unfoldable pub encode_device_slot : DeviceSlot → Bytes
encode_device_slot d = zeros 64 ++ (put_le 4 d.blocks ++ (put_le 4 d.mapped_blk_addr ++ zeros 56))
