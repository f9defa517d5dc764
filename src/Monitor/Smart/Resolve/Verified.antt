-- ===== src/Monitor/Smart/Resolve/Verified.antt =====
-- What a device is that `read_verified_smart` of src/monitor/smart.rs returns, and what its health is.
use Prim.Native.String.{String}
use nvme_disk_mon.Common.{
  ℕ, ◌≡◌, refl, sym, ◌∙◌, ◌≤◌, inl, inr, true, List, ◌++◌, some, Bytes, bytes, Result, ok, arith,
  Option-cases, Result-cases, get_or, ltb, fail_if, ◌>>◌, dec_le, subst,
}
use nvme_disk_mon.Common.Int.{ℤ, pos}
use nvme_disk_mon.Database.Identity.{device_hash_id}
use nvme_disk_mon.Monitor.Device.{NvmeTarget, VerifiedNvmeDevice}
use nvme_disk_mon.Monitor.Smart.{
  linux_device_major, linux_device_minor, both, NvmeSmartHealth, controller_char, parse_smart_log,
  health_of_log,
}
use nvme_disk_mon.Monitor.Smart.Resolve.{
  dev_root, resolve_numbers, resolve_controller, check_serial, Controller, check_status,
  read_smart_from_resolved, resolve_nvme_target, read_verified_smart,
}
use nvme_disk_mon.Monitor.Smart.Resolve.Sound.{
  spaces, numbers_sound, resolve_controller-IsController, serial_sound, IsController,
}
use nvme_disk_mon.Monitor.Task.{SmartReadError, invalid_smart_log}
use nvme_disk_mon.Monitor.Smart.Sysfs.{found, Metadata, FileSystem, join}

-- The health is that of the log with which the controller answered.
pub record IsSmartLog (controller : Controller) (path : Bytes) (health : NvmeSmartHealth)
    : Type 0 where
  pub raw_log : Bytes
  pub char_device : controller.is_char_device path ≡ some true
  pub answered : controller.command path ≡ ok (pos 0, raw_log)
  pub spare : get_or raw_log 3 0 ≤ 100
  pub threshold : get_or raw_log 4 0 ≤ 100
  pub read : health ≡ health_of_log raw_log controller_char controller.sampled_at

percentages_sound :
    {A : Type 0} (a b : ℕ) (m n : SmartReadError) (x y : A)
    → ◌≡◌ {A = Result A SmartReadError}
        (do fail_if (ltb 100 a) m; fail_if (ltb 100 b) n; ok x)
        (ok y)
    → (a ≤ 100) × (b ≤ 100) × (y ≡ x)
percentages_sound a b m n x y h = elim (dec_le a 100) [
  | no p ↦ ground (arith, p)
  | yes p ↦ elim (dec_le b 100) [
    | no q ↦ ground (arith, p, q)
    | yes q ↦ (p, q, ground (arith, p, q))
  ]
]

log_sound :
    (raw_log : Bytes) (sampled_at : Result ℤ String) (health : NvmeSmartHealth)
    → parse_smart_log raw_log controller_char sampled_at ≡ ok health
    → (get_or raw_log 3 0 ≤ 100)
      × (get_or raw_log 4 0 ≤ 100)
      × (health ≡ health_of_log raw_log controller_char sampled_at)
unfolding parse_smart_log
log_sound raw_log sampled_at health h =
    percentages_sound (get_or raw_log 3 0) (get_or raw_log 4 0)
      (invalid_smart_log "available spare percentage")
      (invalid_smart_log "spare threshold percentage")
      (health_of_log raw_log controller_char sampled_at) health h

status_sound : (status : ℤ) → check_status status ≡ ok tt → status ≡ pos 0
unfolding check_status
status_sound status h = ground arith

health_sound :
    (controller : Controller) (device : VerifiedNvmeDevice) (health : NvmeSmartHealth)
    → read_smart_from_resolved controller device ≡ ok health
    → IsSmartLog controller device.controller_path health
unfolding read_smart_from_resolved
health_sound controller device health h =
    let path = device.controller_path in
    elim (Result-cases (controller.open_path path)) [
      | inr (e, o) ↦ ground (arith, o)
      | inl (u, o) ↦ elim (Result-cases (controller.command path)) [
        | inr (e, a) ↦ ground (arith, o, a)
        | inl ((status, raw_log), a) ↦
            elim (Result-cases (parse_smart_log raw_log controller_char controller.sampled_at)) [
              | inr (e, p) ↦ ground (arith, o, a, p)
              | inl (z, p) ↦
                  let same : z ≡ health = ground (arith, o, a, p) in
                  let (spare, threshold, read) = log_sound raw_log controller.sampled_at z p in
                  record {
                    raw_log = raw_log;
                    char_device = ground (arith, o, a);
                    answered = ground (arith, o, a);
                    spare = spare;
                    threshold = threshold;
                    read = sym same ∙ read;
                  }
            ]
      ]
    ]

module _ (sha256 : Bytes → List ℕ) where
  -- The device is the one with the serial of the configuration.
  pub record IsVerified (fs : FileSystem) (target : NvmeTarget) (device : VerifiedNvmeDevice)
      : Type 0 where
    pub metadata : Metadata
    pub found_there : fs.metadata target.configured_path ≡ some metadata
    pub block_device : metadata.is_block_device ≡ true
    pub numbers :
        both (linux_device_major metadata.rdev) (linux_device_minor metadata.rdev)
        ≡ some (device.namespace_major, device.namespace_minor)
    pub sysfs_path : Bytes
    pub name : Bytes
    pub controller : IsController fs device.namespace_major device.namespace_minor sysfs_path name
    pub controller_path : device.controller_path ≡ join dev_root name
    pub padding : ℕ
    pub serial :
        fs.read (join sysfs_path (bytes "serial"))
        ≡ found ((target.expected_serial ++ spaces padding) ++ bytes "\n")
    pub hash : device.hash_id ≡ device_hash_id sha256 target.expected_serial target.configured_path

  abbrev device_of : NvmeTarget → ℕ → ℕ → Bytes → VerifiedNvmeDevice
  device_of target major minor name = record {
    configured_path = target.configured_path;
    namespace_major = major;
    namespace_minor = minor;
    controller_path = join dev_root name;
    hash_id = device_hash_id sha256 target.expected_serial target.configured_path;
  }

  built :
      (fs : FileSystem) (target : NvmeTarget) (device : VerifiedNvmeDevice) (metadata : Metadata)
      (major minor : ℕ) (path name : Bytes)
      → resolve_nvme_target sha256 fs target ≡ ok device
      → fs.metadata target.configured_path ≡ some metadata
      → resolve_numbers metadata ≡ ok (major, minor)
      → resolve_controller fs major minor ≡ ok (path, name)
      → check_serial fs path target.expected_serial ≡ ok tt
      → device_of target major minor name ≡ device
  unfolding resolve_nvme_target
  built fs target device metadata major minor path name h m r c s = ground (arith, m, r, c, s)

  resolve-IsVerified :
      (fs : FileSystem) (target : NvmeTarget) (device : VerifiedNvmeDevice)
      → resolve_nvme_target sha256 fs target ≡ ok device
      → IsVerified fs target device
  unfolding resolve_nvme_target
  resolve-IsVerified fs target device h = elim (Option-cases (fs.metadata target.configured_path)) [
    | inl m ↦ ground (arith, m)
    | inr (metadata, m) ↦ elim (Result-cases (resolve_numbers metadata)) [
      | inr (e, r) ↦ ground (arith, m, r)
      | inl ((major, minor), r) ↦ elim (Result-cases (resolve_controller fs major minor)) [
        | inr (e, c) ↦ ground (arith, m, r, c)
        | inl ((path, name), c) ↦
            elim (Result-cases (check_serial fs path target.expected_serial)) [
              | inr (e, s) ↦ ground (arith, m, r, c, s)
              | inl (u, s) ↦
                  let (block, numbers) = numbers_sound metadata major minor r in
                  let (n, serial) = serial_sound fs path target.expected_serial s in
                  subst (λ d. IsVerified fs target d)
                    (built fs target device metadata major minor path name h m r c s)
                    (record {
                      metadata = metadata;
                      found_there = m;
                      block_device = block;
                      numbers = numbers;
                      sysfs_path = path;
                      name = name;
                      controller = resolve_controller-IsController fs major minor path name c;
                      controller_path = refl;
                      padding = n;
                      serial = serial;
                      hash = refl;
                    })
            ]
      ]
    ]
  ]

  -- When read_verified_smart succeeds, the configured path is a block device with the major and
  -- minor numbers of the result; the whole namespace with these numbers, no partition, leads below
  -- /sys to a controller whose name the path below /dev has; the serial there is that of the
  -- configuration, but for spaces and a newline behind it; the hash is that of the serial and the
  -- path; and the health is that of the log with which this controller, a character device,
  -- answered with the status 0, with no percentage of spare above 100.
  pub read_verified_smart-IsVerified :
      (fs : FileSystem) (controller : Controller) (target : NvmeTarget)
      (device : VerifiedNvmeDevice) (health : NvmeSmartHealth)
      → read_verified_smart sha256 fs controller target ≡ ok (device, health)
      → IsVerified fs target device × IsSmartLog controller device.controller_path health
  unfolding read_verified_smart
  read_verified_smart-IsVerified fs controller target device health h =
      elim (Result-cases (resolve_nvme_target sha256 fs target)) [
        | inr (e, r) ↦ ground (arith, r)
        | inl (d, r) ↦ elim (Result-cases (read_smart_from_resolved controller d)) [
          | inr (e, s) ↦ ground (arith, r, s)
          | inl (l, s) ↦
              let same_device : d ≡ device = ground (arith, r, s) in
              let same_health : l ≡ health = ground (arith, r, s) in
              (
                subst (λ x. IsVerified fs target x) same_device (resolve-IsVerified fs target d r),
                subst (λ x. IsSmartLog controller device.controller_path x) same_health
                    (subst (λ x. IsSmartLog controller x.controller_path l) same_device
                      (health_sound controller d l s)),
              )
        ]
      ]
