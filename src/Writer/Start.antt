-- ===== src/Writer/Start.antt =====
-- Create of mkfs.go, which makes a Writer.
use go_erofs.Prelude.{ℕ, ◌+◌, ◌++◌, if◌then◌else◌, ◌==◌, Bool, false, Option, none, some, [], ◌∷◌}
use go_erofs.Prelude.Bytes.{Bytes}
use go_erofs.Mode.{stat_type_dir}
use go_erofs.Writer.{new_entry, Reply, failed, done, Writer}
use go_erofs.Writer.BlockSize.{set_block_size}
use go_erofs.Writer.Paths.{root_path}

-- createOptions. A data file comes with what it holds and with what Seek(0, io.SeekEnd) gives.
pub record CreateOptions : Type 0 where
  pub build_time : ℕ
  pub build_time_ns : ℕ
  pub has_build_time : Bool
  pub block_size : ℕ
  pub data_file : Option Bytes
  pub seek_end : Option ℕ

abbrev pub first_writer : CreateOptions → Writer
first_writer o = record {
  closed = false;
  block_size = 0;
  build_time = o.build_time;
  build_time_ns = o.build_time_ns;
  has_build_time = o.has_build_time;
  w_err = none;
  entries = new_entry root_path (stat_type_dir + 0o755) ∷ [];
  by_path = (root_path, 0) ∷ [];
  devices = [];
  copy_metadata_only = false;
  copy_merge = false;
  copy_device_id = 0;
  data_file = o.data_file;
  data_off = 0;
  spool = none;
  spool_off = 0;
}

-- An error is kept for the calls that follow.
abbrev pub keep_error : Reply (Unit {0}) × Writer → Writer
keep_error (failed f, w) = record w { w_err = some f }
keep_error (done u, w) = w

abbrev pub or_zero : Option ℕ → ℕ
or_zero none = 0
or_zero (some n) = n

-- Device slot 0 is reserved for the data file.
abbrev pub reserve : Option Bytes → Option ℕ → Writer → Writer
reserve none off w = w
reserve (some held) off w = record w { devices = w.devices ++ (0 ∷ []); data_off = or_zero off }

unfoldable pub new_writer : CreateOptions → Writer
unfolding set_block_size
new_writer o =
    let w = first_writer o in
    reserve o.data_file o.seek_end
      (if o.block_size == 0 then w else keep_error (set_block_size o.block_size w))
