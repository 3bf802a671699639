-- ===== src/Mode.antt =====
-- internal/disk/ftypes.go and the mode conversions of format.go: Unix mode bits, EROFS file types
-- and Go's fs.FileMode. `mode & StatTypeMask` is the top four bits of a 16-bit mode; a test of one
-- bit is a division; bits that cannot be set yet are or'ed in by a sum.
pub mod RoundTrip
use go_erofs.Prelude.{ℕ, ◌+◌, ◌*◌, ◌/◌, ◌%◌, ◌^◌, ◌==◌, if◌then◌else◌, Bool}

abbrev pub file_type_reg : ℕ
file_type_reg = 1

abbrev pub file_type_dir : ℕ
file_type_dir = 2

abbrev pub file_type_chrdev : ℕ
file_type_chrdev = 3

abbrev pub file_type_blkdev : ℕ
file_type_blkdev = 4

abbrev pub file_type_fifo : ℕ
file_type_fifo = 5

abbrev pub file_type_sock : ℕ
file_type_sock = 6

abbrev pub file_type_symlink : ℕ
file_type_symlink = 7

abbrev pub stat_type_reg : ℕ
stat_type_reg = 0o100000

abbrev pub stat_type_dir : ℕ
stat_type_dir = 0o040000

abbrev pub stat_type_chrdev : ℕ
stat_type_chrdev = 0o020000

abbrev pub stat_type_blkdev : ℕ
stat_type_blkdev = 0o060000

abbrev pub stat_type_fifo : ℕ
stat_type_fifo = 0o010000

abbrev pub stat_type_sock : ℕ
stat_type_sock = 0o140000

abbrev pub stat_type_symlink : ℕ
stat_type_symlink = 0o120000

-- mode & StatTypeMask
abbrev pub stat_type : ℕ → ℕ
stat_type mode = mode / 4096 % 16 * 4096

-- The bits of fs.FileMode.
abbrev pub mode_dir : ℕ
mode_dir = 2 ^ 31

abbrev pub mode_symlink : ℕ
mode_symlink = 2 ^ 27

abbrev pub mode_device : ℕ
mode_device = 2 ^ 26

abbrev pub mode_named_pipe : ℕ
mode_named_pipe = 2 ^ 25

abbrev pub mode_socket : ℕ
mode_socket = 2 ^ 24

abbrev pub mode_setuid : ℕ
mode_setuid = 2 ^ 23

abbrev pub mode_setgid : ℕ
mode_setgid = 2 ^ 22

abbrev pub mode_char_device : ℕ
mode_char_device = 2 ^ 21

abbrev pub mode_sticky : ℕ
mode_sticky = 2 ^ 20

abbrev pub mode_irregular : ℕ
mode_irregular = 2 ^ 19

-- m & bit, for a bit of one digit
abbrev pub bit_of : ℕ → ℕ → ℕ
bit_of m bit = m / bit % 2 * bit

-- m.Type(): m & ModeType
abbrev pub type_bits : ℕ → ℕ
type_bits m =
    bit_of m mode_dir
    + bit_of m mode_symlink
    + bit_of m mode_device
    + bit_of m mode_named_pipe
    + bit_of m mode_socket
    + bit_of m mode_char_device
    + bit_of m mode_irregular

-- The types that goModeToUnixMode has a case for; any other adds no type bits.
unfoldable pub unix_type_of : ℕ → ℕ
unix_type_of t =
    if t == 0
    then stat_type_reg
    else if t == mode_dir
    then stat_type_dir
    else if t == mode_symlink
    then stat_type_symlink
    else if t == mode_device + mode_char_device
    then stat_type_chrdev
    else if t == mode_device
    then stat_type_blkdev
    else if t == mode_named_pipe
    then stat_type_fifo
    else if t == mode_socket
    then stat_type_sock
    else 0

unfoldable pub go_mode_to_unix_mode : ℕ → ℕ
unfolding unix_type_of
go_mode_to_unix_mode m =
    m % 512
    + bit_of m mode_setuid / mode_setuid * 0o4000
    + bit_of m mode_setgid / mode_setgid * 0o2000
    + bit_of m mode_sticky / mode_sticky * 0o1000
    + unix_type_of (type_bits m)

unfoldable pub mode_to_file_type : ℕ → ℕ
mode_to_file_type mode =
    let t = stat_type mode in
    if t == stat_type_reg
    then file_type_reg
    else if t == stat_type_dir
    then file_type_dir
    else if t == stat_type_chrdev
    then file_type_chrdev
    else if t == stat_type_blkdev
    then file_type_blkdev
    else if t == stat_type_fifo
    then file_type_fifo
    else if t == stat_type_sock
    then file_type_sock
    else if t == stat_type_symlink
    then file_type_symlink
    else 0

unfoldable pub erofs_ftype_to_file_mode : ℕ → ℕ
erofs_ftype_to_file_mode t =
    if t == file_type_dir
    then mode_dir
    else if t == file_type_chrdev
    then mode_device + mode_char_device
    else if t == file_type_blkdev
    then mode_device
    else if t == file_type_fifo
    then mode_named_pipe
    else if t == file_type_sock
    then mode_socket
    else if t == file_type_symlink
    then mode_symlink
    else 0

-- The type bits that the switch of EroFSModeToGoFileMode sets.
unfoldable pub go_type_of : ℕ → ℕ
go_type_of t =
    if t == stat_type_reg
    then 0
    else if t == stat_type_dir
    then mode_dir
    else if t == stat_type_chrdev
    then mode_device + mode_char_device
    else if t == stat_type_blkdev
    then mode_device
    else if t == stat_type_fifo
    then mode_named_pipe
    else if t == stat_type_sock
    then mode_socket
    else if t == stat_type_symlink
    then mode_symlink
    else mode_irregular

unfoldable pub erofs_mode_to_go_file_mode : ℕ → ℕ
unfolding go_type_of
erofs_mode_to_go_file_mode mode =
    mode % 512
    + go_type_of (stat_type mode)
    + mode / 0o4000 % 2 * mode_setuid
    + mode / 0o2000 % 2 * mode_setgid
    + mode / 0o1000 % 2 * mode_sticky

unfoldable pub rdev_from_mode : ℕ → ℕ → ℕ
rdev_from_mode mode inode_data =
    let t = stat_type mode in
    if t == stat_type_chrdev
    then inode_data
    else if t == stat_type_blkdev
    then inode_data
    else if t == stat_type_fifo
    then inode_data
    else if t == stat_type_sock
    then inode_data
    else 0
