-- ===== src/Monitor/Smart/Resolve/Sound.antt =====
-- What the steps of `resolve_nvme_target` of src/monitor/smart.rs have found where they succeed.
use nvme_disk_mon.Common.{
  ℕ, zero, suc, ◌≡◌, refl, sym, ◌∙◌, inl, inr, Bool, true, false, [], ◌∷◌, ◌++◌, some, Bytes, bytes,
  bytes_key, Result, ok, arith, Option-cases, Result-cases, is_empty, Bool-cases, fail_if, not,
  ◌>>◌, if◌then◌else◌, ◌==◌, ◌&&◌, strip_suffix, Bytes-discrete, ℕ_discrete, ap,
}
use nvme_disk_mon.Monitor.Smart.{linux_device_major, linux_device_minor, both}
use nvme_disk_mon.Monitor.Smart.Resolve.{
  sys_dev_block, resolve_numbers, resolve_controller, check_serial, read_serial, node_name,
  find_namespace, canonicalize_sysfs, is_nvme,
}
use nvme_disk_mon.Monitor.Task.{SmartReadError, not_nvme_namespace, topology_not_found}
use nvme_disk_mon.Monitor.Smart.Sysfs.{
  found, Metadata, FileSystem, join, file_name, is_controller_name, without_padding,
  sysfs_serial_matches, check_partition, require_nvme_namespace,
}

-- A number of spaces
abbrev pub spaces : ℕ → Bytes
spaces zero = []
spaces (suc n) = 32 ∷ spaces n

-- The newline at the end
strip_suffix-append :
    (c : ℕ) (s stem : Bytes) → strip_suffix (c ∷ []) s ≡ some stem → s ≡ stem ++ c ∷ []
unfolding strip_suffix Bytes-discrete
strip_suffix-append c [] stem h = ground arith
strip_suffix-append c (d ∷ s) stem h = elim (Bytes-discrete (c ∷ []) (d ∷ s)) [
  | yes e ↦ ground (arith, e)
  | no n ↦ elim (Option-cases (strip_suffix (c ∷ []) s)) [
    | inl m ↦ ground (arith, n, m)
    | inr (rest, m) ↦ ground (arith, n, m, strip_suffix-append c s rest m)
  ]
]

padding_step :
    (c : ℕ) (s w : Bytes) (n : ℕ)
    → s ≡ w ++ spaces n
    → (k : ℕ) × ((c ∷ s) ≡ (if is_empty w && (c == 32) then [] else c ∷ w) ++ spaces k)
padding_step c s [] n e = elim (ℕ_discrete c 32) [
  | yes p ↦ (suc n, ground (arith, p))
  | no p ↦ (n, ground (arith, p))
]
padding_step c s (d ∷ w) n e = (n, ap (λ t. c ∷ t) e)

padding : (s : Bytes) → (n : ℕ) × (s ≡ without_padding s ++ spaces n)
unfolding without_padding
padding [] = (0, refl)
padding (c ∷ s) = let (n, e) = padding s in padding_step c s (without_padding s) n e

pub numbers_sound :
    (m : Metadata) (a b : ℕ)
    → resolve_numbers m ≡ ok (a, b)
    → (m.is_block_device ≡ true)
      × (both (linux_device_major m.rdev) (linux_device_minor m.rdev) ≡ some (a, b))
unfolding resolve_numbers
numbers_sound m a b h =
    elim (Option-cases (both (linux_device_major m.rdev) (linux_device_minor m.rdev))) [
      | inl n ↦ ground arith
      | inr (pair, n) ↦ (ground arith, ground arith)
    ]

matches_sound :
    (s expected : Bytes)
    → sysfs_serial_matches s expected ≡ ok true
    → (n : ℕ) × (s ≡ (expected ++ spaces n) ++ bytes "\n")
unfolding sysfs_serial_matches
matches_sound s expected h = elim (Option-cases (strip_suffix (bytes "\n") s)) [
  | inl m ↦ ground arith
  | inr (line, m) ↦
      let (n, e) = padding line in
      elim (Bytes-discrete (without_padding line) expected) [
        | yes p ↦ (n, ground (arith, p, e, m, strip_suffix-append b'\n' s line m))
        | no p ↦ ground (arith, p, m)
      ]
]

read_sound :
    (fs : FileSystem) (path serial : Bytes)
    → read_serial fs path ≡ ok serial
    → fs.read path ≡ found serial
unfolding read_serial
read_sound fs path serial h = ground arith

canonicalize_sound :
    (fs : FileSystem) (path canonical : Bytes)
    → canonicalize_sysfs fs path ≡ ok canonical
    → fs.canonicalize path ≡ found canonical
unfolding canonicalize_sysfs
canonicalize_sound fs path canonical h = ground arith

pub serial_sound :
    (fs : FileSystem) (path expected : Bytes)
    → check_serial fs path expected ≡ ok tt
    → (n : ℕ) × (fs.read (join path (bytes "serial"))
        ≡ found ((expected ++ spaces n) ++ bytes "\n"))
unfolding check_serial
serial_sound fs path expected h =
    elim (Result-cases (read_serial fs (join path (bytes "serial")))) [
      | inr (e, r) ↦ ground (arith, r)
      | inl (s, r) ↦ elim (Result-cases (sysfs_serial_matches s expected)) [
        | inr (e, m) ↦ ground (arith, r, m)
        | inl (matches, m) ↦
            let (n, e) = matches_sound s expected (ground (arith, r, m)) in
            (n, read_sound fs (join path (bytes "serial")) s r ∙ ap found e)
      ]
    ]

-- The directory of a controller below /sys, found from the numbers of a whole namespace.
pub record IsController (fs : FileSystem) (major minor : ℕ) (path name : Bytes) : Type 0 where
  pub namespace : Bytes
  pub namespace_found :
      fs.canonicalize (join sys_dev_block (node_name major minor)) ≡ found namespace
  pub whole : fs.try_exists (join namespace (bytes "partition")) ≡ some false
  pub controller_found : fs.canonicalize (join namespace (bytes "device")) ≡ found path
  pub name_found : file_name path ≡ some name
  pub name_valid : is_controller_name name ≡ true

ok_name :
    (path name p n : Bytes) (subsystem : Bool)
    → ◌≡◌ {A = Result (Bytes × Bytes) SmartReadError}
        (do
          fail_if (not subsystem) not_nvme_namespace
          fail_if (not (is_controller_name n)) topology_not_found
          ok (p, n))
        (ok (path, name))
    → (p ≡ path) × (n ≡ name) × (is_controller_name name ≡ true)
ok_name path name p n subsystem h = elim (Bool-cases (is_controller_name n)) [
  | inr invalid ↦ ground (arith, invalid)
  | inl valid ↦
      let same : n ≡ name = ground (arith, valid) in
      (ground (arith, valid), same, ap is_controller_name (sym same) ∙ valid)
]

pub resolve_controller-IsController :
    (fs : FileSystem) (major minor : ℕ) (path name : Bytes)
    → resolve_controller fs major minor ≡ ok (path, name)
    → IsController fs major minor path name
unfolding resolve_controller find_namespace require_nvme_namespace check_partition
resolve_controller-IsController fs major minor path name h =
    let node = join sys_dev_block (node_name major minor) in
    elim (Result-cases (find_namespace (fs.canonicalize node))) [
      | inr (e, f) ↦ ground (arith, f)
      | inl (ns, f) ↦ elim (Result-cases (require_nvme_namespace fs ns)) [
        | inr (e, r) ↦ ground (arith, f, r)
        | inl (u, r) ↦ elim (Result-cases (canonicalize_sysfs fs (join ns (bytes "device")))) [
          | inr (e, c) ↦ ground (arith, f, r, c)
          | inl (p, c) ↦ elim (Result-cases (canonicalize_sysfs fs (join p (bytes "subsystem")))) [
            | inr (e, b) ↦ ground (arith, f, r, c, b)
            | inl (q, b) ↦ elim (Option-cases (file_name p)) [
              | inl none_there ↦ ground (arith, f, r, c, b, none_there)
              | inr (n, there) ↦
                  let (same_path, same_name, valid) =
                    ok_name path name p n (is_nvme (file_name q))
                      (ground (arith, f, r, c, b, there)) in
                  record {
                    namespace = ns;
                    namespace_found = ground (arith, f);
                    whole = ground (arith, r);
                    controller_found =
                        canonicalize_sound fs (join ns (bytes "device")) p c ∙ ap found same_path;
                    name_found = ap file_name (sym same_path) ∙ there ∙ ap some same_name;
                    name_valid = valid;
                  }
            ]
          ]
        ]
      ]
    ]
