-- ===== src/Monitor/Smart/Numbers.antt =====
-- The device numbers that src/monitor/smart.rs and src/writer/history.rs decode.
use nvme_disk_mon.Common.{ℕ, ◌+◌, ◌*◌, ◌/◌, ◌%◌, ◌^◌, ◌<◌, ◌≡◌, ◌∙◌, sym, ◌↔◌, some, arith, ap}
use nvme_disk_mon.Monitor.Smart.{
  masked, to_u32, linux_device_major, linux_device_minor, both, linux_device_number,
}

abbrev pub major_of : ℕ → ℕ
major_of d = d / 256 % 4096 + d / 17592186044416 * 4096

abbrev pub minor_of : ℕ → ℕ
minor_of d = d % 256 + d / 1048576 % 16777216 * 256

major_lem : (d : ℕ) → d < 2 ^ 64 → linux_device_major d ≡ some (major_of d)
unfolding linux_device_major masked to_u32
major_lem d h = ground arith

minor_lem : (d : ℕ) → d < 2 ^ 64 → linux_device_minor d ≡ some (minor_of d)
unfolding linux_device_minor masked to_u32
minor_lem d h = ground arith

number_lem : (d : ℕ) → d < 2 ^ 64 → linux_device_number d ≡ some (major_of d, minor_of d)
unfolding linux_device_number both masked to_u32
number_lem d h = ground arith

parts-agree :
    (d e : ℕ) → d < 2 ^ 64 → e < 2 ^ 64 → major_of d ≡ major_of e → minor_of d ≡ minor_of e → d ≡ e
parts-agree d e hd he p q = omega arith

both_lem :
    (d : ℕ)
    → d < 2 ^ 64
    → both (linux_device_major d) (linux_device_minor d) ≡ some (major_of d, minor_of d)
unfolding both
both_lem d h = cc (major_lem d h, minor_lem d h)

-- For 64-bit device numbers, the pair that history.rs decodes of one is the pair of the major and
-- the minor number that smart.rs decodes of the other exactly when they are the same number.
pub linux_device_number_iff :
    (d e : ℕ)
    → d < 2 ^ 64
    → e < 2 ^ 64
    → (linux_device_number d ≡ both (linux_device_major e) (linux_device_minor e)) ↔ (d ≡ e)
linux_device_number_iff d e hd he = (
  λ p.
      let parts : some (major_of d, minor_of d) ≡ some (major_of e, minor_of e) =
        sym (number_lem d hd) ∙ p ∙ both_lem e he in
      parts-agree d e hd he (ground (arith, parts)) (ground (arith, parts)),
  λ p. ap linux_device_number p ∙ number_lem e he ∙ sym (both_lem e he),
)
