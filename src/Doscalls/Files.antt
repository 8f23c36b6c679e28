-- ===== src/Doscalls/Files.antt =====
-- native/doscalls.c: the table of file handles (HFiles, MaxHFiles) and the calls that keep it:
-- DosClose, DosDupHandle, DosSetMaxFH, DosSetRelMaxFH, DosQueryFHState. The Unix calls are a
-- parameter, whose state is W. The lock of the table is always granted.
pub mod Open
pub mod Slots
pub mod Freed
pub mod Opening
mod Runs
use ine_debugger.Doscalls.Errors.{
  error_invalid_handle, error_invalid_parameter, error_too_many_open_files, error_access_denied,
  error_invalid_target_handle,
}
use ine_debugger.Prelude.{
  ℕ, zero, suc, ◌+◌, Bool, true, false, Option, none, some, List, [], ◌∷◌, ◌++◌, ◌⊎◌, inl, inr, ◌-◌,
}
use ine_debugger.Prelude.{ltb, leb, ◌==◌, if◌then◌else◌, length, get_elem?, set, drop, replicate}
use ine_debugger.Prelude.Memory.{Outcome, ok, crash}

-- -1, -2, and what open answers.
pub data Descriptor : Type 0 where
  closed : Descriptor
  reserved : Descriptor
  unix : ℕ → Descriptor

pub record HFileInfo : Type 0 where
  pub fd : Descriptor
  pub type_of : ℕ
  pub attr : ℕ
  pub flags : ℕ

pub data Access : Type 0 where
  read_only : Access
  write_only : Access
  read_write : Access

-- The flags of open.
pub record OpenFlags : Type 0 where
  pub access : Access
  pub creat : Bool
  pub excl : Bool
  pub trunc : Bool
  pub sync : Bool
  pub cloexec : Bool

-- The numbers of errno that the code tells apart.
pub data Errno : Type 0 where
  eacces : Errno
  edquot : Errno
  eexist : Errno
  eisdir : Errno
  emfile : Errno
  enfile : Errno
  enametoolong : Errno
  enospc : Errno
  enomem : Errno
  enoent : Errno
  enotdir : Errno
  eperm : Errno
  erofs : Errno
  etxtbsy : Errno
  other : Errno

-- `st_mode & S_IFMT`
pub data FileKind : Type 0 where
  s_ifreg : FileKind
  s_ifblk : FileKind
  s_ifchr : FileKind
  s_ififo : FileKind
  s_ifsock : FileKind
  s_ifother : FileKind

-- How lxMakeUnixPath fails, and with which error: on a drive that is not mounted, or out of memory.
pub data PathError : Type 0 where
  not_dos_disk : PathError
  not_enough_memory : PathError

abbrev pub path_error : PathError → ℕ
path_error not_dos_disk = 26
path_error not_enough_memory = 8

-- What the code calls: lxMakeUnixPath and the Unix calls. `open_file` is told whether the owner
-- may write the new file; `close` whether it went well.
pub record System (W : Type 0) : Type 0 where
  pub make_unix_path : W → List ℕ → PathError ⊎ List ℕ
  pub open_file : W → List ℕ → OpenFlags → Bool → (Errno ⊎ ℕ) × W
  pub close : W → ℕ → Bool × W
  pub ftruncate : W → Descriptor → ℕ → Option Errno × W
  pub fstat : W → ℕ → Option FileKind
  pub dup : W → Descriptor → Option ℕ × W

abbrev pub is_closed : Descriptor → Bool
is_closed closed = true
is_closed reserved = false
is_closed (unix n) = false

abbrev pub descriptor_of : Option ℕ → Descriptor
descriptor_of none = closed
descriptor_of (some n) = unix n

-- A slot that is free.
abbrev pub no_file : HFileInfo
no_file = record { fd = closed; type_of = 0; attr = 0; flags = 0 }

abbrev pub file_type : FileKind → ℕ
file_type s_ifreg = 0
file_type s_ifblk = 1
file_type s_ifchr = 1
file_type s_ififo = 2
file_type s_ifsock = 2
file_type s_ifother = 2

-- The loop for a free slot, which the lock covers: its handle, and the table with it reserved.
unfoldable pub reserve : List HFileInfo → Option (ℕ × List HFileInfo)
reserve [] = none
reserve (info ∷ infos) =
    let further = reserve infos in
    if is_closed info.fd
    then some (0, record info { fd = reserved } ∷ infos)
    else elim further [ none ↦ none | some found ↦ some (suc found.0, info ∷ found.1) ]

unfoldable pub get_h_file_unix_descriptor : List HFileInfo → ℕ → Descriptor
get_h_file_unix_descriptor h_files h = elim (get_elem? h_files h) [
  | none ↦ closed
  | some info ↦ info.fd
]

-- The slot's file is forgotten, its flags stay.
abbrev pub set_closed : HFileInfo → HFileInfo
set_closed info = record info { fd = closed; type_of = 0; attr = 0 }

abbrev pub modify : List HFileInfo → ℕ → (HFileInfo → HFileInfo) → List HFileInfo
modify [] i f = []
modify (info ∷ infos) zero f = f info ∷ infos
modify (info ∷ infos) (suc i) f = info ∷ modify infos i f

-- The mode, where the handle is one.
unfoldable pub dos_query_fh_state : List HFileInfo → ℕ → ℕ ⊎ ℕ
dos_query_fh_state h_files h = elim (get_elem? h_files h) [
  | none ↦ inl error_invalid_handle
  | some info ↦ if is_closed info.fd then inl error_invalid_handle else inr info.flags
]

-- `grown`: whether realloc finds the memory.
unfoldable pub dos_set_max_fh : List HFileInfo → ℕ → Bool → ℕ × List HFileInfo
dos_set_max_fh h_files c_fh grown =
    if ltb c_fh (length h_files)
    then (error_invalid_parameter, h_files)
    else (if c_fh == length h_files
        then (0, h_files)
        else (if grown
            then (0, h_files ++ replicate (c_fh - length h_files) no_file)
            else (0, h_files)))

-- Free slots over the front of the table; behind it, memory that realloc has not set.
abbrev pub reset_front : ℕ → List HFileInfo → List HFileInfo
reset_front zero infos = infos
reset_front (suc n) [] = []
reset_front (suc n) (info ∷ infos) = no_file ∷ reset_front n infos

-- `incr` is positive. The new slots hold what `fresh` shows of the memory.
unfoldable pub dos_set_rel_max_fh : List HFileInfo → ℕ → List HFileInfo → Bool → ℕ × List HFileInfo
dos_set_rel_max_fh h_files incr fresh grown =
    if ltb 0 incr
    then (if grown
        then (length h_files + incr, reset_front incr (h_files ++ fresh))
        else (length h_files, h_files))
    else (length h_files, h_files)

module _ {W : Type 0} (system : System W) where
  unfoldable pub init_h_file_info_from_unix_fd : W → Option ℕ → HFileInfo
  init_h_file_info_from_unix_fd w none = no_file
  init_h_file_info_from_unix_fd w (some fd) = elim (system.fstat w fd) [
    | none ↦ no_file
    | some kind ↦ record { fd = unix fd; type_of = file_type kind; attr = 32899; flags = 0 }
  ]

  -- Error, table and system afterwards.
  unfoldable pub dos_close : List HFileInfo → W → ℕ → ℕ × List HFileInfo × W
  unfolding get_h_file_unix_descriptor
  dos_close h_files w h = elim (get_h_file_unix_descriptor h_files h) [
    | closed ↦ (error_invalid_handle, h_files, w)
    | reserved ↦ (0, h_files, w)
    | unix fd ↦
        if leb fd 2
        then (0, h_files, w)
        else (let done = system.close w fd in
            if done.0
            then (0, modify h_files h set_closed, done.1)
            else (error_access_denied, h_files, done.1))
  ]

  -- `memcpy` and `dup`, out of one slot into another.
  abbrev pub dup_into : List HFileInfo → W → HFileInfo → ℕ → List HFileInfo × W
  dup_into h_files w source target =
      let copied = system.dup w source.fd in
      let fd = descriptor_of copied.0 in (set h_files target (record source { fd = fd }), copied.1)

  -- `target` is `none` where it is -1: error, handle, table and system.
  unfoldable pub dos_dup_handle :
      List HFileInfo → W → ℕ → Option ℕ → Outcome (ℕ × Option ℕ × List HFileInfo × W)
  unfolding reserve
  dos_dup_handle h_files w h none = elim (reserve h_files) [
    | none ↦ ok (error_too_many_open_files, none, h_files, w)
    | some found ↦ elim (get_elem? found.1 h) [
      | none ↦ crash
      | some source ↦
          let (table, w') = dup_into found.1 w source found.0 in ok (0, some found.0, table, w')
    ]
  ]
  dos_dup_handle h_files w h (some target) = elim (get_elem? h_files target) [
    | none ↦ crash
    | some taken ↦
        if is_closed taken.fd
        then elim (get_elem? h_files h) [
          | none ↦ crash
          | some source ↦
              let (table, w') = dup_into h_files w source target in ok (0, some target, table, w')
        ]
        else ok (error_invalid_target_handle, some target, h_files, w)
  ]
