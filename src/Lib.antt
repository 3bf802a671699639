-- ===== src/Lib.antt =====
-- go-erofs: a reader and a writer of EROFS images.
--
-- The Writer keeps a tree of entries by their paths, which its methods build and copies from other file
-- systems extend, and hands it to the image writer on Close.
--
-- The image writer takes entries (a mode, an owner, times, data or chunks, attributes, children), plans
-- where each inode goes, and writes an image of three parts: the superblock area, the data blocks
-- and the metadata area with the inodes. The reader opens an image from its superblock, finds an
-- inode by its number (nid), loads blocks of its data, which Read copies, and looks names up in
-- directories, on which the resolution of paths with their symbolic links stands. Both share the
-- on-disk records, the mode conversions and the attribute names.
--
-- Files and code:
--   Prelude     lists, tests and byte strings; put_le and get_le are encoding/binary's little endian
--   Disk        internal/disk/types.go: constants, records, and their codec (Disk.Codec)
--   Mode        internal/disk/ftypes.go, and goModeToUnixMode and modeToFileType of format.go
--   Image       internal/builder/entry.go (Chunk), mkfs.go (erofsEntry), writer.go (erofsWriter)
--     Dirents   direntNames and direntDataSize of layout.go, writeDirents of writer.go
--     Plan      planLayout and calcTrailingSize of layout.go
--     Inode     inodeFormat of format.go, writeInode of writer.go
--     Chunks    writeChunkIndexes of writer.go, parseChunks of mkfs_image.go
--     Metadata  writeMetadataInodes of writer.go
--     Data      assignDataBlocks, writeDataBlocks, writeBlock0 and writeSeekable of writer.go
--   Xattr       format.go, xattr.go, writeXattrs of writer.go, parseXattrsFromBuf of mkfs_image.go
--   Reader      erofs.go: the image and the inode as records, errors as values
--     Info      readInfo
--     Blocks    loadBlock and mapDev, calculateBlocks of block.go
--     Directory blockFirstName, blockDirent, lookupBlock and dir.lookup
--     Opening   Open
--     Reading   Read, readLink
--     Resolving resolve, Open, ReadFile and ReadLink of a path
--   Writer      mkfs.go: the Writer, its entries and the File as records
--     Paths     cleanPath, and path.Clean, Dir and Base of Go's package path
--     Maps      Go maps with strings as keys
--     Tree      addChild, ensureParent, checkPath, lookup, remove, removeChildren, removeSubtree
--     Index     the entries that are not removed, as byPath has to list them
--     Calls     Create, Mkdir, Symlink, Mknod, Chmod, Chown, Chtimes, Setxattr, SetNlink
--     BlockSize setBlockSize, resolveBlockSize
--     Files     Write, ReadFrom and Close of a File, closeDataFile
--     Copy      add, and CopyFrom (Copy.Walk)
--     Start     the function Create
--     Valid     what holds of a Writer between two calls, and the calls as steps
--     Build     Close: buildErofsTree, fsToErofs, the walk of planLayout, fixParentNids
--   Tests       the theorems at concrete inputs
--
-- State and names: a Go function or method fooBar is foo_bar, a field likewise. A method that sets
-- fields takes a record and returns a new one. What is written to an io.Writer is the list of bytes
-- that the function returns; a panic and an error are `none` in the writer and `err` in the reader. An
-- io.ReaderAt is a parameter, a function from an offset and a length to the bytes read or an error,
-- which may be io.EOF; bytes_reader is the one over given bytes. The tree that planLayout walks is the
-- list of its entries in walk order. The entries that a Writer reaches by pointers are a list too, and a
-- pointer is an index into it. What os.File.Write takes is a parameter, and so is whatever a source of
-- CopyFrom says of its files.
--
-- Integers: uint16, uint32 and uint8 arithmetic keeps its `% 2 ^ w`. Sizes and offsets that the code
-- holds as int, int64 or uint64 are numbers without a bound, where they stay below 2^63.
--
-- Loops over a list are recursion on it. Others run on fuel: min_chunk_bits gets 31 rounds less the
-- starting bits, since its test fails at 31; the packing of directory blocks gets one round for each
-- entry, and takes an entry or more in each; inline_loop of the attributes gets one for each byte, and
-- moves by four or more; the binary searches get as many as there are candidates, and drop one in each;
-- blk_bits gets 64, the width of an int. Read gets one round for each byte asked for, and a loaded
-- block has a byte or more. resolve counts the symbolic links that it follows down from 255, and walks
-- the parts of a name between two links.
--
-- ensureParent gets the length of the path, since a directory's path is shorter; removeSubtree and
-- buildErofsTree get the number of entries, since a child is made after its parent; closeDataFile gets
-- the number of blocks, and takes one or more in each round.
--
-- Not modelled: CopyFrom of an image and copyFromImage but for its parsers, ReadDir, Stat and
-- the long prefix table of the reader, readers of a source that fail in the middle, the platforms' stat
-- calls, the command line, and the tests' helpers.
pub mod Prelude
pub mod Disk
pub mod Mode
pub mod Image
pub mod Xattr
pub mod Reader
pub mod Writer
pub mod Tests
