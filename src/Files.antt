-- ===== src/Files.antt =====
-- kernel/fs: the nodes of the devices and of the file systems. A name is the string in its array.
pub mod Sysfs
pub mod Initrd
pub mod Drivers
mod Tests
use beryllium.Base.{ℕ, zero, suc, ◌+◌, ◌%◌, ◌^◌, Option, none, some, List, [], ◌∷◌, ◌++◌, get_or}
use beryllium.Base.{◌>>=◌}
use beryllium.Vfs.Mounts.{Vfs, vfs_mount}

-- Which functions the pointers of a node are to.
pub data Functions : Type 0 where
  null_functions : Functions
  zero_functions : Functions
  serial_functions : Functions
  dev_functions : Functions
  sysfs_functions : Functions
  sysfs_entry : Functions
  initrd_functions : Functions
  no_functions : Functions

-- `vfs_node_t` without the owner and the device numbers; `kind` is its `type`.
pub record VfsNode : Type 0 where
  pub name : List ℕ
  pub kind : ℕ
  pub flags : ℕ
  pub permissions : ℕ
  pub inode : ℕ
  pub length : ℕ
  pub functions : Functions

-- `VFS_FILE`, `VFS_DIRECTORY`, `VFS_CHARDEVICE` and `VFS_MOUNTPOINT`
abbrev pub file : ℕ
file = 1

abbrev pub directory : ℕ
directory = 2

abbrev pub chardevice : ℕ
chardevice = 4

abbrev pub mountpoint : ℕ
mountpoint = 64

-- A node after `memset`, with what the functions that create one set.
unfoldable pub device_create : (name : List ℕ) (permissions flags : ℕ) → Functions → VfsNode
device_create name permissions flags functions = record {
  name = name;
  kind = 0;
  flags = flags;
  permissions = permissions;
  inode = 0;
  length = 0;
  functions = functions;
}

unfoldable pub null_device_create : VfsNode
null_device_create =
    device_create (b'n' ∷ (b'u' ∷ (b'l' ∷ (b'l' ∷ [])))) 1 (file + chardevice) null_functions

unfoldable pub zero_device_create : VfsNode
zero_device_create =
    device_create (b'z' ∷ (b'e' ∷ (b'r' ∷ (b'o' ∷ [])))) 1 (file + chardevice) zero_functions

unfoldable pub serial_device_create : VfsNode
serial_device_create =
    device_create (b's' ∷ (b'e' ∷ (b'r' ∷ (b'i' ∷ (b'a' ∷ (b'l' ∷ [])))))) 3 (file + chardevice)
      serial_functions

unfoldable pub dev_device_create : VfsNode
dev_device_create =
    device_create (b'd' ∷ (b'e' ∷ (b'v' ∷ (b'f' ∷ (b's' ∷ []))))) 1 directory dev_functions

unfoldable pub sysfs_device_create : VfsNode
sysfs_device_create =
    device_create (b's' ∷ (b'y' ∷ (b's' ∷ (b'f' ∷ (b's' ∷ []))))) 1 directory sysfs_functions

-- The loop of `write_serial`, from `i` on: `out` are the bytes that `serial_write` has got.
unfoldable pub write_serial : (rounds i : ℕ) (buffer out : List ℕ) → List ℕ
write_serial zero i buffer out = out
write_serial (suc n) i buffer out = write_serial n (i + 1) buffer (out ++ (get_or buffer i 0 ∷ []))

-- `/dev/null`, `/dev/zero`, `/dev/serial0` and `/dev/`
abbrev pub dev_null : List ℕ
dev_null = b'/' ∷ (b'd' ∷ (b'e' ∷ (b'v' ∷ (b'/' ∷ (b'n' ∷ (b'u' ∷ (b'l' ∷ (b'l' ∷ []))))))))

abbrev pub dev_zero : List ℕ
dev_zero = b'/' ∷ (b'd' ∷ (b'e' ∷ (b'v' ∷ (b'/' ∷ (b'z' ∷ (b'e' ∷ (b'r' ∷ (b'o' ∷ []))))))))

abbrev pub dev_serial0 : List ℕ
dev_serial0 =
    b'/'
    ∷ (b'd'
        ∷ (b'e'
            ∷ (b'v' ∷ (b'/' ∷ (b's' ∷ (b'e' ∷ (b'r' ∷ (b'i' ∷ (b'a' ∷ (b'l' ∷ (b'0' ∷ [])))))))))))

abbrev pub dev : List ℕ
dev = b'/' ∷ (b'd' ∷ (b'e' ∷ (b'v' ∷ (b'/' ∷ []))))

-- What the mounts return is not looked at.
unfoldable pub init_vfs_devices : Vfs VfsNode → Option (Vfs VfsNode)
init_vfs_devices v0 = do
  (v1, ret1) ← vfs_mount (some dev_null) null_device_create v0
  (v2, ret2) ← vfs_mount (some dev_zero) zero_device_create v1
  (v3, ret3) ← vfs_mount (some dev_serial0) serial_device_create v2
  (v4, ret4) ← vfs_mount (some dev) dev_device_create v3
  some v4
