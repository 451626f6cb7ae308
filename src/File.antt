-- ===== src/File.antt =====
-- kernel/core/file.c: the tree of files. Files are known by their addresses, 0 for NULL, and lie in a
-- store; their names lie in memory. The function that frees a file at its last reference, as `vga_free`
-- of kernel/device/vga.c, is recorded and not run. `granted` says whether `krealloc` has room.
pub mod Children
pub mod Attach
pub mod Names
use kernel_of_truth.Base.{
  ℕ, zero, suc, ◌+◌, ◌-◌, ◌%◌, ◌^◌, ◌==◌, bit, Bool, true, false, not, if◌then◌else◌, Option, none,
  some, List, [], ◌∷◌, ◌++◌, Run, ok, fault, stuck, ◌&&◌, ◌>>=◌, ◌>>◌, assert,
}
use kernel_of_truth.Types
use kernel_of_truth.Types.{Status, add64, sub64, u64_mod}
use kernel_of_truth.String.{Mem, is_zero, strncmp}
use kernel_of_truth.Object.{Object, object_retain, object_release}

-- `struct file`, less the functions of the driver; `fini` says whether that one is set, `allocated`
-- whether `children` is not NULL. `frees` counts the calls of `obj.free` with this file.
pub record File : Type 0 where
  pub name : ℕ
  pub fini : Bool
  pub parent : ℕ
  pub child_capacity : ℕ
  pub child_count : ℕ
  pub allocated : Bool
  pub children : ℕ → ℕ
  pub obj : Object
  pub frees : ℕ

abbrev pub Files : Type 0
Files = ℕ → File

-- A file with its fields changed.
abbrev pub update_file : Files → ℕ → (File → File) → Files
update_file fs file change x = if x == file then change (fs x) else fs x

abbrev pub retain_file : File → File
retain_file f = record f { obj = object_retain f.obj }

abbrev pub release_file : File → File
release_file f =
    let (o, called) = object_release f.obj in record f { obj = o; frees = f.frees + bit called }

-- A cell of the array `children`.
abbrev pub set_child : (ℕ → ℕ) → ℕ → ℕ → ℕ → ℕ
set_child children i child x = if x == i then child else children x

-- The loop of `file_name_is_valid` on fuel; a name without an end is read for ever.
unfoldable pub name_loop : Mem → ℕ → ℕ → ℕ → Run Status
name_loop m path zero i = stuck
name_loop m path (suc fuel) i =
    let rest = name_loop m path fuel (i + 1) in
    if m (path + i) == 0
    then ok Types.ok
    else if m (path + i) == b'/'
    then ok Types.invalid
    else rest

-- `file_name_is_valid`
unfoldable pub file_name_is_valid : Mem → ℕ → Run Status
file_name_is_valid m path = if m path == 0 then ok Types.invalid else name_loop m path u64_mod 0

-- The loop of `file_find_child_named`, with `k` rounds left.
unfoldable pub child_loop : Mem → Files → ℕ → ℕ → ℕ → ℕ → ℕ → ℕ
child_loop m fs file name n zero i = 0
child_loop m fs file name n (suc k) i =
    let rest = child_loop m fs file name n k (i + 1) in
    let child = (fs file).children i in
    if is_zero (strncmp m name (fs child).name n) then child else rest

-- `file_find_child_named`: the child, with a reference more, or 0.
unfoldable pub file_find_child_named : Mem → Files → ℕ → ℕ → ℕ → Run (ℕ × Files)
file_find_child_named m fs file name n = do
  assert (not (file == 0))
  assert (not (name == 0))
  let child = child_loop m fs file name n (fs file).child_count 0
  ok (child, if child == 0 then fs else update_file fs child retain_file)

-- The loop of `file_from_path` on fuel, at index `i` of the path: `start` is where the name of the
-- current component begins, and the size given to `file_find_child_named` is `start - &path[i]`.
unfoldable pub path_loop : Mem → ℕ → ℕ → ℕ → ℕ → ℕ → Files → Run (ℕ × Files)
path_loop m path zero i start parent fs = stuck
path_loop m path (suc fuel) i start parent fs =
    let rest = path_loop m path fuel (i + 1) start parent fs in
    let into = file_find_child_named m fs parent start (sub64 start (path + i)) >>= λ found.
    if found.0 == 0
    then ok found
    else path_loop m path fuel (i + 1) (path + i + 1) found.0 found.1 in
    if m (path + i) == 0 then ok (parent, fs) else if m (path + i) == b'/' then into else rest

-- `file_from_path`, with the address of `Root`.
unfoldable pub file_from_path : Mem → ℕ → ℕ → Files → Run (ℕ × Files)
file_from_path m root path fs = assert (not (path == 0)) >> path_loop m path u64_mod 0 path root fs

-- The stores of `file_attach`, with room in the array: in order, as parent and child may be the same.
abbrev pub join : Files → ℕ → ℕ → Files
join fs parent child =
    let listed = update_file fs parent λ f. record f {
      children = set_child f.children f.child_count child;
      child_count = add64 f.child_count 1;
    } in
    update_file (update_file listed child (λ c. record c { parent = parent })) parent retain_file

-- `file_attach`. `krealloc` of NULL returns NULL.
unfoldable pub file_attach : Mem → Files → Bool → ℕ → ℕ → Run (Status × Files)
file_attach m fs granted parent child = do
  assert (not (parent == 0))
  assert (not (child == 0))
  status ← file_name_is_valid m (fs child).name
  let capacity = add64 (fs parent).child_capacity 10
  let grown = update_file fs parent λ f. record f { child_capacity = capacity }
  elim status [
    | Types.ok ↦
        if (fs parent).child_capacity == (fs parent).child_count
        then if (fs parent).allocated && granted
          then ok (Types.ok, join grown parent child)
          else ok (Types.no_memory, grown)
        else if (fs parent).allocated
        then ok (Types.ok, join fs parent child)
        else fault
    | e ↦ ok (e, fs)
  ]

-- `file_attach_path`
unfoldable pub file_attach_path : Mem → ℕ → Files → Bool → ℕ → ℕ → Run (Status × Files)
file_attach_path m root fs granted parent_path child = do
  found ← file_from_path m root parent_path fs
  if found.0 == 0 then ok (Types.invalid, found.1) else do
    attached ← file_attach m found.1 granted found.0 child
    ok (Types.ok, update_file attached.1 found.0 release_file)

-- The search of `file_detach`, with `k` rounds left.
unfoldable pub find_child : (ℕ → ℕ) → ℕ → ℕ → ℕ → Option ℕ
find_child children child zero i = none
find_child children child (suc k) i =
    let rest = find_child children child k (i + 1) in if children i == child then some i else rest

-- The stores of `file_detach`: the last child takes the place of the one that goes.
abbrev pub leave : File → ℕ → File
leave f i =
    let count = sub64 f.child_count 1 in
    release_file
      (record f { child_count = count; children = set_child f.children i (f.children count) })

abbrev pub detach_at : Files → ℕ → Option ℕ → Status × Files
detach_at fs parent none = (Types.absent, fs)
detach_at fs parent (some i) = (Types.ok, update_file fs parent (λ f. leave f i))

-- `file_detach`
unfoldable pub file_detach : Files → ℕ → ℕ → Run (Status × Files)
file_detach fs parent child = do
  assert (not (parent == 0))
  assert (not (child == 0))
  ok (detach_at fs parent (find_child (fs parent).children child (fs parent).child_count 0))

-- The loop of `file_fini` over the children, with `k` rounds left; `fini_child` is its call of
-- `file_fini`. The files whose function `fini` has been called are listed.
unfoldable pub fini_children :
    (ℕ → List ℕ × Files → Run (List ℕ × Files)) → ℕ → ℕ → ℕ → List ℕ × Files → Run (List ℕ × Files)
fini_children fini_child file zero i st = ok st
fini_children fini_child file (suc k) i st = do
  st' ← fini_child ((st.1 file).children i) st
  fini_children fini_child file k (i + 1) st'

-- `file_fini`, to the depth of nested calls given.
unfoldable pub file_fini : ℕ → ℕ → List ℕ × Files → Run (List ℕ × Files)
file_fini zero file st = stuck
file_fini (suc depth) file st = do
  assert (not (file == 0))
  below ← fini_children (file_fini depth) file (st.1 file).child_count 0 st
  let called = if (below.1 file).fini then below.0 ++ file ∷ [] else below.0
  ok (called, update_file below.1 file release_file)

-- `file_system_init`, with the addresses of `Root` and `Dev`.
unfoldable pub file_system_init : Mem → Files → Bool → ℕ → ℕ → Run (Status × Files)
file_system_init m fs granted root dev = file_attach m fs granted root dev

-- `file_system_fini`
unfoldable pub file_system_fini : ℕ → ℕ → Files → Run (List ℕ × Files)
file_system_fini depth root fs = file_fini depth root ([], fs)
