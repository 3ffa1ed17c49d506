-- ===== src/Lib.antt =====
-- A model of atomfs, which mounts OCI images as an overlay of file system images with dm-verity.
--
-- An image is a molecule: a list of atoms, each of them one squashfs or erofs image. Mounting a
-- molecule mounts every atom, if it has a root hash through a verity device, and then an overlay over
-- the atoms. Unmounting takes the overlay, the atoms and their devices down again.
--
-- The parts and the files that model them:
--   System       the world: a kernel record answers every call by a function of all calls made
--                before; an action threads the history of calls, newest first, and ends with a value,
--                an error or a panic. System/Trace has postconditions of successful runs (Ends),
--                System/Keeps invariants of every run (Keeps).
--   Text, FilePath, Numeral, Wire
--                what the code uses of Go's strings, path/filepath, strconv, encoding/hex and
--                encoding/binary, over bytes.
--   Mountinfo    pkg/mount/mountinfo.go: ParseMounts, FindMount, GetOverlayDirs.
--   Exclude      pkg/common/exclude.go: ExcludePaths and its operations.
--   MediaType    pkg/fs/fs.go, pkg/squashfs/mediatype.go, pkg/erofs/mediatype.go.
--   Host         pkg/common/utils.go: EnsureDir, PathExists, Which, AmHostRoot and the others.
--   Device       pkg/common/mount.go: GuestMount, Umount, GetBackingDevice, IsMountedAtDir.
--   Verity       pkg/verity/verity.go: VerityHostMount, VerityUnmount, the two confirmations,
--                AppendVerityData, retryIfBusy. Verity/Params is what is handed to libcryptsetup, and
--                get_verity_params with the calls it makes of libdevmapper; its parameters or failure
--                the calls dm_table and dm_status of
--                System answer.
--   Squashfs     pkg/squashfs/superblock.go, pkg/squashfs/verity.go: the superblock and its flags.
--   Erofs        pkg/erofs/superblock.go, pkg/erofs/verity.go: the superblock and its checksum.
--   Fuse         squashFuse and erofsFuse of pkg/squashfs/squashfs.go and pkg/erofs/erofs.go: how the
--                programs that serve an image are found, started and waited for.
--   Extract      the extractors of these two files; Extract/Policy is ExtractPolicy with
--                NewExtractPolicy, ExtractSingleSquashPolicy, ExtractSingleSquash and their
--                counterparts of erofs, Extract/Race the goroutines that call them with one policy.
--   Make         MakeSquashfs and MakeErofs of the same files.
--   Layer        pkg/squashfs/fs.go, pkg/erofs/fs.go: mounting one image, by the kernel or in user
--                space. The two files are alike, so one definition stands for both. Layer/Interface
--                is the interface Filesystem of pkg/types/fs.go.
--   Molecule     pkg/molecule/molecule.go, pkg/molecule/oci.go, pkg/oci/oci.go. Molecule/Atoms is
--                mountUnderlyingAtoms, Molecule/Overlay the lower directories and the options,
--                Molecule/Mounting Mount, Molecule/Unmounting UmountWithMetadir, Molecule/Oci
--                BuildMoleculeFromOCI and the lookups, Molecule/Oci/Update UpdateImageConfig. What
--                Mount and UmountWithMetadir come to as a whole is in Molecule/Mounting/Whole and
--                Molecule/Unmounting/Whole, and Molecule/Cycle is one after the other. Molecule/Places
--                says where the atoms are mounted, below a metadata path that stays; Molecule/Steady
--                is why it does.
--   Command      cmd/atomfs: findImage, doMount, doUmount and doVerify. Command/Main is main, with the
--                commands and their flags as the command-line library is told of them; that
--                library is an argument. Command/Image is what stands behind a mount from the
--                arguments on.
--   Tests        a concrete machine, runs on it, and the properties at concrete inputs.
--
-- Actions follow the code call by call: `m >>= f` is the step behind `if err != nil { return err }`,
-- `on_failure` a deferred function that runs unless the action completes, `always` a deferred call,
-- `attempt` an error that the code looks at. A panic (an index out of range, a nil pointer) is a
-- result of its own. What is said of a run that succeeds is true of every kernel; the machines of
-- Tests show such runs of VerityHostMount, of Mount with UmountWithMetadir, and of the commands mount
-- and verify.
--
-- Bounds: machine integers are native numbers, with wrap-around written out where the code can reach
-- it (the block size and the data size of erofs, the rounding of squashfs). The loop of AddInclude
-- runs on fuel; one step for each parent directory and one more are enough. retryIfBusy tries five
-- times, as in the code. The loop of squashFuse and erofsFuse runs on fuel for 602 rounds, which is
-- enough if the clock counts the 50 milliseconds of each sleep; where it does not, the model answers
-- out_of_fuel. The integer that math.Log2(0) is converted to is a parameter, and so is what the
-- sync.Once of each package has found (Setup, and the arguments of Make and Extract).
--
-- Goroutines: an action is one goroutine's, and the kernel record may answer as if others ran between
-- two calls. Where goroutines share a state of the program, the extraction policy, Extract/Race
-- has a step for each read and write of the flag, the mutex and the chosen extractor, in any
-- interleaving, and Extract/Race/Refinement relates it to the calls of Extract/Policy.
--
-- A time in a superblock is a whole number of seconds from 1970 on, as the parser gives it: of the
-- time.Time that toBytes takes, the nanoseconds and the times before are left out.
--
-- Not modelled: the texts of error messages, of the log and of the log files; the mutex of each
-- extractor; the usage texts of cmd/atomfs; pkg/log/log.go, whose five functions only call a logging
-- library. The programs that are started
-- (mksquashfs, squashfuse, unsquashfs, mkfs.erofs, erofsfuse, fsck.erofs, mount) and the semver library
-- are not code of the repository: the kernel record answers for them.
pub mod Base
pub mod Text
pub mod System
pub mod FilePath
pub mod Numeral
pub mod Host
pub mod Verity
pub mod Device
pub mod Wire
pub mod Squashfs
pub mod Erofs
pub mod Mountinfo
pub mod Exclude
pub mod MediaType
pub mod Fuse
pub mod Extract
pub mod Make
pub mod Layer
pub mod Molecule
pub mod Command
pub mod Tests
