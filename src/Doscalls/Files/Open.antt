-- ===== src/Doscalls/Files/Open.antt =====
-- native/doscalls.c: doDosOpen. No extended attributes are passed.
use ine_debugger.Doscalls.Errors.{
  error_invalid_parameter, error_too_many_open_files, error_access_denied, error_open_failed,
}
use ine_debugger.Prelude.{
  ℕ, Bool, true, false, ◌&&◌, ◌||◌, not, Option, none, some, List, ◌⊎◌, inl, inr,
}
use ine_debugger.Prelude.{ltb, ◌==◌, if◌then◌else◌, set, bit_and}
use ine_debugger.Prelude.Memory.{flag}
use ine_debugger.Doscalls.Files.{PathError, path_error}
use ine_debugger.Doscalls.Files.{
  HFileInfo, System, OpenFlags, Access, read_only, write_only, read_write, Errno, reserve,
}
use ine_debugger.Doscalls.Files.{
  eacces, edquot, eexist, eisdir, emfile, enfile, enametoolong, enospc, enomem, enoent,
}
use ine_debugger.Doscalls.Files.{enotdir, eperm, erofs, etxtbsy, other, closed, no_file}
use ine_debugger.Doscalls.Files.{init_h_file_info_from_unix_fd, get_h_file_unix_descriptor, modify}

-- FILE_EXISTED and what follows it.
pub data Action : Type 0 where
  file_existed : Action
  file_created : Action
  file_truncated : Action

-- Error; handle and action where they are written; table and system.
pub record OpenedFile (W : Type 0) : Type 0 where
  pub error : ℕ
  pub handle : Option ℕ
  pub action : Option Action
  pub h_files : List HFileInfo
  pub world : W

-- The last switch, on errno.
abbrev pub error_of : Errno → ℕ
error_of eacces = error_access_denied
error_of edquot = 82
error_of eexist = 82
error_of eisdir = error_access_denied
error_of emfile = error_too_many_open_files
error_of enfile = error_too_many_open_files
error_of enametoolong = 206
error_of enospc = 112
error_of enomem = 8
error_of enoent = 2
error_of enotdir = 3
error_of eperm = error_access_denied
error_of erofs = error_access_denied
error_of etxtbsy = error_access_denied
error_of other = error_open_failed

-- The first switch: the access wanted.
unfoldable pub access_of : ℕ → Option Access
access_of fs_open_mode =
    let wanted = bit_and fs_open_mode 3 in
    if wanted == 0
    then some read_only
    else (if wanted == 1 then some write_only else (if wanted == 2 then some read_write else none))

abbrev pub is_read_only : Access → Bool
is_read_only read_only = true
is_read_only write_only = false
is_read_only read_write = false

-- The checks of the arguments, in order; 0 where all pass.
unfoldable pub check_open : Bool → ℕ → ℕ → ℕ → ℕ → ℕ
check_open is_readonly cb_file ul_attribute fs_open_flags fs_open_mode =
    if is_readonly && not (cb_file == 0)
    then error_invalid_parameter
    else (if flag ul_attribute 0x10
        then error_invalid_parameter
        else (if is_readonly && (bit_and fs_open_flags 0xf0 == 0x10)
            then error_invalid_parameter
            else (if is_readonly && (bit_and fs_open_flags 0xf == 2)
                then error_invalid_parameter
                else (if flag fs_open_flags 0xfffffe00
                    then error_invalid_parameter
                    else (if flag fs_open_flags 0x8000
                        then error_open_failed
                        else (if flag fs_open_mode 0xffff0000
                            then error_invalid_parameter
                            else 0))))))

-- What the switches make of the actions wanted.
pub record Plan : Type 0 where
  pub flags : OpenFlags
  pub must_not_exist : Bool
  pub is_exclusive : Bool
  pub is_replacing : Bool

unfoldable pub plan_open : Access → ℕ → ℕ → Plan
plan_open access fs_open_flags fs_open_mode =
    let creates = bit_and fs_open_flags 0xf0 == 0x10 in
    let fails = bit_and fs_open_flags 0xf == 0 in
    let replaces = bit_and fs_open_flags 0xf == 2 in
    let exclusive = fails && not (is_read_only access) in
    record {
      flags = record {
        access = access;
        creat = creates || exclusive;
        excl = creates || exclusive;
        trunc = replaces;
        sync = flag fs_open_mode 0x4000;
        cloexec = flag fs_open_mode 0x80;
      };
      must_not_exist = fails && is_read_only access;
      is_exclusive = exclusive;
      is_replacing = replaces;
    }

abbrev pub is_eexist : Errno → Bool
is_eexist eexist = true
is_eexist e = false

-- A call that ends with an error.
abbrev pub fail_open : {W : Type 0} → ℕ → List HFileInfo → W → OpenedFile W
fail_open error h_files w = record {
  error = error;
  handle = none;
  action = none;
  h_files = h_files;
  world = w;
}

-- The slot is given up.
abbrev pub release : HFileInfo → HFileInfo
release info = record info { fd = closed }

module _ {W : Type 0} (system : System W) where
  -- The second try, without O_EXCL, where the first says that the file exists: what it answers,
  -- whether `existed`, the system.
  unfoldable pub try_again : Plan → List ℕ → Bool → (Errno ⊎ ℕ) × W → (Errno ⊎ ℕ) × Bool × W
  try_again plan path mode (inr fd, w) = (inr fd, true, w)
  try_again plan path mode (inl errno, w) =
      if (plan.flags.creat || plan.flags.excl) && is_eexist errno && not plan.is_exclusive
      then (let again = system.open_file w path (record plan.flags { excl = false }) mode in
          (again.0, true, again.1))
      else (inl errno, false, w)

  -- The calls of open.
  unfoldable pub try_open : Plan → W → List ℕ → Bool → (Errno ⊎ ℕ) × Bool × W
  unfolding try_again
  try_open plan w path mode = try_again plan path mode (system.open_file w path plan.flags mode)

  -- Behind a file that is open: the slot is filled, and its handle answered.
  unfoldable pub finish_open : Plan → ℕ → List HFileInfo → W → ℕ → ℕ → Bool → OpenedFile W
  unfolding init_h_file_info_from_unix_fd
  finish_open plan fs_open_flags h_files w hf fd existed =
      let info = init_h_file_info_from_unix_fd system w (some fd) in
      record {
        error = 0;
        handle = some hf;
        action = some (
            if plan.is_replacing
            then file_truncated
            else (if existed then file_existed else file_created));
        h_files = set h_files hf (record info { flags = fs_open_flags });
        world = w;
      }

  -- Behind ftruncate: where it fails the file is closed, and `fd` keeps its number.
  unfoldable pub after_size :
      Plan → ℕ → List HFileInfo → ℕ → ℕ → Bool → Option Errno × W → OpenedFile W
  unfolding finish_open
  after_size plan fs_open_flags table hf fd existed (none, w) =
      finish_open plan fs_open_flags table w hf fd existed
  after_size plan fs_open_flags table hf fd existed (some errno, w) =
      finish_open plan fs_open_flags (modify table hf release) (system.close w fd).1 hf fd existed

  -- What follows the calls of open. The size goes to the descriptor that stands in the slot.
  unfoldable pub use_file :
      Plan → ℕ → ℕ → List HFileInfo → ℕ → (Errno ⊎ ℕ) × Bool × W → OpenedFile W
  unfolding finish_open after_size get_h_file_unix_descriptor
  use_file plan cb_file fs_open_flags table hf (inl errno, existed, w) =
      fail_open (error_of errno) (set table hf no_file) w
  use_file plan cb_file fs_open_flags table hf (inr fd, existed, w) =
      if plan.must_not_exist
      then fail_open error_open_failed (modify table hf release) (system.close w fd).1
      else (if (not existed || plan.is_replacing) && ltb 0 cb_file
          then (let slot = get_h_file_unix_descriptor table hf in
              after_size plan fs_open_flags table hf fd existed (system.ftruncate w slot cb_file))
          else finish_open plan fs_open_flags table w hf fd existed)

  -- From the conversion of the name on.
  unfoldable pub open_path :
      Plan → ℕ → ℕ → ℕ → List HFileInfo → ℕ → W → PathError ⊎ List ℕ → OpenedFile W
  unfolding try_open use_file
  open_path plan cb_file ul_attribute fs_open_flags table hf w (inl err) =
      fail_open (path_error err) (modify table hf release) w
  open_path plan cb_file ul_attribute fs_open_flags table hf w (inr path) =
      use_file plan cb_file fs_open_flags table hf
        (try_open plan w path (not (flag ul_attribute 1)))

  -- From the search for a slot on.
  unfoldable pub open_slot :
      Plan → ℕ → ℕ → ℕ → List HFileInfo → W → List ℕ → Option (ℕ × List HFileInfo) → OpenedFile W
  unfolding open_path
  open_slot plan cb_file ul_attribute fs_open_flags h_files w name none =
      fail_open error_too_many_open_files h_files w
  open_slot plan cb_file ul_attribute fs_open_flags h_files w name (some found) =
      open_path plan cb_file ul_attribute fs_open_flags found.1 found.0 w
        (system.make_unix_path w name)

  -- From the checks on.
  unfoldable pub open_checked :
      Option Access → List HFileInfo → W → List ℕ → ℕ → ℕ → ℕ → ℕ → OpenedFile W
  unfolding check_open plan_open open_slot reserve
  open_checked none h_files w name cb_file ul_attribute fs_open_flags fs_open_mode =
      fail_open error_invalid_parameter h_files w
  open_checked (some access) h_files w name cb_file ul_attribute fs_open_flags fs_open_mode =
      let error =
        check_open (is_read_only access) cb_file ul_attribute fs_open_flags fs_open_mode in
      if error == 0
      then open_slot (plan_open access fs_open_flags fs_open_mode) cb_file ul_attribute
          fs_open_flags h_files w name (reserve h_files)
      else fail_open error h_files w

  -- `cbFile` is not negative.
  unfoldable pub do_dos_open : List HFileInfo → W → List ℕ → ℕ → ℕ → ℕ → ℕ → OpenedFile W
  unfolding access_of open_checked
  do_dos_open h_files w name cb_file ul_attribute fs_open_flags fs_open_mode =
      open_checked (access_of fs_open_mode) h_files w name cb_file ul_attribute fs_open_flags
        fs_open_mode
